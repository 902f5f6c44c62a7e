-- ===== src/Reservation/Create.antt =====
-- memory_store.go: creation. A batch is checked whole before anything is written; the maps of pending
-- ids and keys are read for membership only, so they are sets.
pub mod Effects
pub mod Release
use clairveil.Prelude.{
  String, Bool, true, false, not, Option, none, some, List, [], ◌∷◌, str_eq, if◌then◌else◌,
}
use clairveil.Prelude.Result.{Result, ok, err, guard, ◌>>=◌, ◌>>◌}
use clairveil.Prelude.Exec.{Exec, continue}
use clairveil.Prelude.Dict.{Dict, StringSet, contains, insert}
use clairveil.Reservation.Status.{is_active}
use clairveil.Reservation.Types.{Error, NoteReservation, PayrollOperation, active_key}
use clairveil.Reservation.Store.{MemoryStore, Method, put_reservation, put_operation}

-- The part of `validateReservationCreateLocked` on an active reservation's key.
unfoldable pub claim_key : NoteReservation → StringSet → MemoryStore → Result Error StringSet
claim_key r keys s =
    if is_active r.status
    then (do
      guard (not (contains (active_key r) s.active_reservation_by_key))
          Error.active_reservation_exists
      guard (not (contains (active_key r) keys)) Error.active_reservation_exists
      ok (insert (active_key r) tt keys))
    else ok keys

-- `validateReservationCreateLocked`; it returns the pending keys with the new one.
unfoldable pub validate_reservation_create :
    NoteReservation → StringSet → StringSet → MemoryStore → Result Error StringSet
unfolding claim_key
validate_reservation_create r pending keys s = do
  guard (not (str_eq r.reservation_id "")) Error.invalid_reservation
  guard (not (contains r.reservation_id s.reservations)) Error.active_reservation_exists
  guard (not (contains r.reservation_id pending)) Error.active_reservation_exists
  claim_key r keys s

-- The first loop of `CreateReservationBatch`.
unfoldable pub validate_reservations :
    List NoteReservation → StringSet → StringSet → MemoryStore → Result Error Unit
validate_reservations [] pending keys s = ok tt
validate_reservations (r ∷ rs) pending keys s = do
  keys' ← validate_reservation_create r pending keys s
  validate_reservations rs (insert r.reservation_id tt pending) keys' s

-- `validateOperationCreateLocked`.
unfoldable pub validate_operation_create :
    PayrollOperation → StringSet → MemoryStore → Result Error Unit
validate_operation_create o pending s = do
  guard (not (str_eq o.operation_id "")) Error.operation_id_required
  guard (not (contains o.operation_id s.operations)) Error.operation_exists
  guard (not (contains o.operation_id pending)) Error.operation_exists

-- The second loop of `CreateReservationBatch`.
unfoldable pub validate_operations :
    List PayrollOperation → StringSet → MemoryStore → Result Error Unit
unfolding validate_operation_create
validate_operations [] pending s = ok tt
validate_operations (o ∷ os) pending s = do
  validate_operation_create o pending s
  validate_operations os (insert o.operation_id tt pending) s

unfoldable pub put_reservations : List NoteReservation → MemoryStore → MemoryStore
put_reservations [] s = s
put_reservations (r ∷ rs) s = put_reservations rs (put_reservation r s)

unfoldable pub put_operations : List PayrollOperation → MemoryStore → MemoryStore
put_operations [] s = s
put_operations (o ∷ os) s = put_operations os (put_operation o s)

-- All the checks of `CreateReservationBatch`.
unfoldable pub validate_batch :
    List NoteReservation → List PayrollOperation → MemoryStore → Result Error Unit
validate_batch rs os s = do validate_reservations rs [] [] s; validate_operations os [] s

-- `CreateReservationBatch`. With no reservations it returns at once, whatever the operations.
unfoldable pub create_reservation_batch :
    List NoteReservation → List PayrollOperation → Method (List NoteReservation)
create_reservation_batch [] os s = (ok [], s)
create_reservation_batch (r ∷ rs) os s =
    continue (validate_batch (r ∷ rs) os s)
      (λ _ t. (ok (r ∷ rs), put_operations os (put_reservations (r ∷ rs) t))) s

-- `&created[0]`.
abbrev pub first : Result Error (List NoteReservation) → Result Error NoteReservation
first (ok (r ∷ rs)) = ok r
first (ok []) = err Error.invalid_reservation
first (err e) = err e

-- `CreateReservation`.
unfoldable pub create_reservation : NoteReservation → Method NoteReservation
unfolding create_reservation_batch
create_reservation r s =
    let (created, t) = create_reservation_batch (r ∷ []) [] s in (first created, t)

-- `CreateOperation`.
unfoldable pub create_operation : PayrollOperation → Method PayrollOperation
unfolding validate_operation_create
create_operation o s =
    continue (validate_operation_create o [] s) (λ _ t. (ok o, put_operation o t)) s
