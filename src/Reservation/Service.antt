-- ===== src/Reservation/Service.antt =====
-- service.go and lease.go: the service over a store. The store is none where `Service.Store` is nil; the
-- clock's instant and the random token are arguments.
pub mod Leases
pub mod Effects
use clairveil.Prelude.{
  ℕ, ◌+◌, ◌/◌, String, not, ◌||◌, Option, none, some, List, [], ◌∷◌, str_eq, ◌==◌, if◌then◌else◌,
}
use clairveil.Prelude.Int.{ℤ, pos_part, sub_ℕ, leb_ℤ, is_positive}
use clairveil.Prelude.Result.{Result, ok, err, guard, ◌>>=◌, ◌>>◌}
use clairveil.Prelude.Exec.{Exec, continue}
use clairveil.Prelude.Dict.{StringSet, contains, insert}
use clairveil.Reservation.Status.{
  ReservationStatus, OperationStatus, status_eq, can_transition, requires_lease_token,
  is_unset_operation,
}
use clairveil.Reservation.Types.{
  Error, NoteReservation, PayrollOperation, Lease, AuditBinding, SubmittedReservationRef,
  SubmittedReservationUpdate, BroadcastAttemptUpdate, ProofReadyOperationUpdate,
}
use clairveil.Reservation.Audit.{is_valid_binding}
use clairveil.Reservation.Store.{MemoryStore, Method}
use clairveil.Reservation.Transition.{compare_and_set, compare_and_set_with_lease, find_reservation}
use clairveil.Reservation.Lease.{
  acquire_lease, acquire_lease_for_status, heartbeat_lease, heartbeat_lease_for_status,
}
use clairveil.Reservation.Lease as StoreLease
use clairveil.Reservation.Create.{create_reservation_batch, first}
use clairveil.Reservation.Marks.{
  mark_submitted, mark_broadcast_unknown, mark_proof_ready, first_marked,
}

abbrev pub ServiceMethod : Type 0 → Type 0
ServiceMethod A = Exec (Option MemoryStore) Error A

-- `if s.Store == nil`, and the call of the store.
unfoldable pub on_store : {A : Type 0} → Method A → ServiceMethod A
on_store m none = (err Error.store_required, none)
on_store m (some s) = let (r, t) = m s in (r, some t)

pub record ReserveInput : Type 0 where
  pub reservation : NoteReservation
  pub operation : Option PayrollOperation

-- `now.Unix()`: the zero time is 62135596800 seconds before 1970.
abbrev pub unix : ℕ → ℤ
unix now = sub_ℕ (now / 1_000_000_000) 62_135_596_800

-- The test of the audit binding in `normalizeReserveInput`.
unfoldable pub check_binding : Option AuditBinding → ℕ → Result Error Unit
check_binding none now = ok tt
check_binding (some b) now = do
  guard (is_valid_binding b) Error.invalid_reservation
  guard (not (leb_ℤ b.expires_at_unix (unix now))) Error.invalid_reservation

abbrev or_text : String → String → String
or_text s d = if str_eq s "" then d else s

abbrev or_time : ℕ → ℕ → ℕ
or_time t d = if t == 0 then d else t

-- The operation of `normalizeReserveInput`, and the operation id of its reservation.
unfoldable pub normalize_operation :
    NoteReservation → Option PayrollOperation → ℕ → Result Error (String × Option PayrollOperation)
normalize_operation r none now = ok (r.operation_id, none)
normalize_operation r (some o) now = do
  guard (not (str_eq o.operation_id "")) Error.invalid_reservation
  guard (str_eq (or_text r.operation_id o.operation_id) o.operation_id) Error.invalid_reservation
  guard (str_eq (or_text o.reservation_id r.reservation_id) r.reservation_id)
      Error.invalid_reservation
  ok (
    or_text r.operation_id o.operation_id,
    some (record o {
      reservation_id = or_text o.reservation_id r.reservation_id;
      status = if is_unset_operation o.status then OperationStatus.planned else o.status;
      created_at = or_time o.created_at now;
      updated_at = now;
    }),
  )

-- `normalizeReserveInput`.
unfoldable pub normalize_reserve_input :
    ReserveInput → ℕ → Result Error (NoteReservation × Option PayrollOperation)
normalize_reserve_input input now = do
  let r = input.reservation
  guard (not (str_eq r.reservation_id "")) Error.invalid_reservation
  guard (not (str_eq r.owner_key_id "")) Error.invalid_reservation
  guard (not (str_eq r.nullifier_lookup_key "")) Error.invalid_reservation
  guard
      (status_eq r.status ReservationStatus.unset || status_eq r.status ReservationStatus.reserved)
      Error.invalid_reservation
  check_binding r.audit now
  (operation_id, operation) ← normalize_operation r input.operation now
  ok (
    record r {
      status = ReservationStatus.reserved;
      created_at = or_time r.created_at now;
      updated_at = now;
      operation_id = operation_id;
    },
    operation,
  )

unfoldable pub with_operation :
    Option PayrollOperation → List PayrollOperation → List PayrollOperation
with_operation none os = os
with_operation (some o) os = o ∷ os

-- The loop of `ReserveBatch`.
unfoldable pub normalize_all :
    List ReserveInput → ℕ → Result Error (List NoteReservation × List PayrollOperation)
unfolding with_operation
normalize_all [] now = ok ([], [])
normalize_all (input ∷ inputs) now = do
  (r, o) ← normalize_reserve_input input now
  (rs, os) ← normalize_all inputs now
  ok (r ∷ rs, with_operation o os)

-- `pendingOperations`.
unfoldable pub pending_operations : List PayrollOperation → StringSet
pending_operations [] = []
pending_operations (o ∷ os) =
    let rest = pending_operations os in
    if str_eq o.operation_id "" then rest else insert o.operation_id tt rest

-- `validateReservationOperationLinks`. What is in `checkedOperations` was found in the store.
unfoldable pub validate_input_links :
    List NoteReservation → StringSet → MemoryStore → Result Error Unit
validate_input_links [] pending s = ok tt
validate_input_links (r ∷ rs) pending s = do
  guard
      (str_eq r.operation_id ""
        || contains r.operation_id pending
        || contains r.operation_id s.operations)
      Error.operation_not_found
  validate_input_links rs pending s

-- All that `ReserveBatch` does before it calls the store.
unfoldable pub prepare_batch :
    List ReserveInput
    → ℕ
    → MemoryStore
    → Result Error (List NoteReservation × List PayrollOperation)
prepare_batch inputs now s = do
  (rs, os) ← normalize_all inputs now
  validate_input_links rs (pending_operations os) s
  ok (rs, os)

-- The rest of `ReserveBatch`, on inputs that are not empty.
unfoldable pub reserve_prepared : List ReserveInput → ℕ → Method (List NoteReservation)
reserve_prepared inputs now s =
    continue (prepare_batch inputs now s)
      (λ (p : List NoteReservation × List PayrollOperation). create_reservation_batch p.0 p.1) s

-- `ReserveBatch`.
unfoldable pub reserve_batch : List ReserveInput → ℕ → ServiceMethod (List NoteReservation)
unfolding on_store
reserve_batch [] now = on_store (λ s. (ok [], s))
reserve_batch (input ∷ inputs) now = on_store (reserve_prepared (input ∷ inputs) now)

-- `Reserve`.
unfoldable pub reserve : ReserveInput → ℕ → ServiceMethod NoteReservation
unfolding reserve_batch
reserve input now s = let (created, t) = reserve_batch (input ∷ []) now s in (first created, t)

unfoldable pub checked_transition :
    String → ReservationStatus → ReservationStatus → ℕ → Method NoteReservation
checked_transition id from to now s =
    if not (can_transition from to)
    then (err Error.invalid_transition, s)
    else if requires_lease_token from to
    then (err Error.lease_mismatch, s)
    else compare_and_set id from to now s

-- `Transition`.
unfoldable pub transition :
    String → ReservationStatus → ReservationStatus → ℕ → ServiceMethod NoteReservation
unfolding on_store checked_transition
transition id from to now = on_store (checked_transition id from to now)

-- `TransitionWithLease`.
unfoldable pub transition_with_lease :
    String → String → ReservationStatus → ReservationStatus → ℕ → ServiceMethod NoteReservation
unfolding on_store
transition_with_lease id token from to now = on_store λ s.
    if not (can_transition from to)
    then (err Error.invalid_transition, s)
    else compare_and_set_with_lease id token from to now s

-- `Release`: the check of `from` comes before that of the store.
unfoldable pub release : String → ReservationStatus → ℕ → ServiceMethod NoteReservation
unfolding transition
release id from now s =
    if not (status_eq from ReservationStatus.reserved)
    then (err Error.invalid_transition, s)
    else transition id from ReservationStatus.released now s
