-- ===== src/Reservation/Transition.antt =====
-- memory_store.go: the compare-and-set methods, reads and plain updates.
pub mod Effects
use clairveil.Prelude.{
  ℕ, String, Bool, true, false, not, ◌&&◌, ◌||◌, Option, none, some, str_eq, ◌==◌, ltb,
  if◌then◌else◌,
}
use clairveil.Prelude.Result.{Result, ok, err, guard, or_fail, ◌>>=◌, ◌>>◌}
use clairveil.Prelude.Exec.{Exec}
use clairveil.Prelude.Dict.{lookup, contains}
use clairveil.Reservation.Status.{
  ReservationStatus, status_eq, is_active, can_transition, requires_lease_token,
}
use clairveil.Reservation.Types.{Error, NoteReservation, PayrollOperation}
use clairveil.Reservation.Store.{
  MemoryStore, Method, put_reservation, put_operation, has_conflict, clear_lease_for, commit,
}

unfoldable pub find_reservation : String → MemoryStore → Result Error NoteReservation
find_reservation id s = or_fail (lookup id s.reservations) Error.reservation_not_found

-- `GetReservation`.
unfoldable pub get_reservation : String → Method NoteReservation
unfolding find_reservation
get_reservation id s = (find_reservation id s, s)

-- `requireLeaseToken` of lease.go.
unfoldable pub require_lease_token : NoteReservation → String → ℕ → Result Error Unit
require_lease_token r token now =
    if str_eq token "" || not (str_eq token r.lease_token)
    then err Error.lease_mismatch
    else if (r.lease_until == 0) || not (ltb now r.lease_until)
    then err Error.lease_unavailable
    else ok tt

-- The candidate that a transition writes.
unfoldable pub transitioned : ReservationStatus → ℕ → NoteReservation → NoteReservation
unfolding clear_lease_for
transitioned to now r =
    let cleared = clear_lease_for to (record r { status = to }) in
    record cleared { updated_at = now }

-- The guards of a transition on the reservation that it found.
unfoldable pub check_transition :
    String
    → ReservationStatus
    → ReservationStatus
    → NoteReservation
    → MemoryStore
    → Result Error Unit
check_transition id from to r s = do
  guard (status_eq r.status from) Error.compare_and_set_failed
  guard (can_transition from to) Error.invalid_transition
  guard (not (is_active to && has_conflict (record r { status = to }) id s))
      Error.active_reservation_exists

-- The checks that the compare-and-set methods share.
unfoldable pub candidate :
    String → ReservationStatus → ReservationStatus → MemoryStore → Result Error NoteReservation
unfolding find_reservation check_transition
candidate id from to s = do r ← find_reservation id s; check_transition id from to r s; ok r

-- `compareAndSetReservationStatusLocked`.
unfoldable pub compare_and_set_locked :
    String → ReservationStatus → ReservationStatus → ℕ → Method NoteReservation
unfolding commit
compare_and_set_locked id from to now s = commit (transitioned to now) (candidate id from to s) s

-- `CompareAndSetReservationStatus`.
unfoldable pub compare_and_set :
    String → ReservationStatus → ReservationStatus → ℕ → Method NoteReservation
unfolding compare_and_set_locked
compare_and_set id from to now s =
    if requires_lease_token from to
    then (err Error.lease_mismatch, s)
    else compare_and_set_locked id from to now s

-- The first checks of `CompareAndSetReservationStatusWithLease`.
unfoldable pub check_lease : String → String → ℕ → MemoryStore → Result Error Unit
check_lease id token now s = do r ← find_reservation id s; require_lease_token r token now

-- `CompareAndSetReservationStatusWithLease`.
unfoldable pub compare_and_set_with_lease :
    String → String → ReservationStatus → ReservationStatus → ℕ → Method NoteReservation
unfolding commit
compare_and_set_with_lease id token from to now s =
    commit (transitioned to now) (check_lease id token now s >> candidate id from to s) s

-- The operation that `CompareAndSetReservationStatusWithOperation` is going to write.
unfoldable pub linked_operation :
    String
    → NoteReservation
    → Option PayrollOperation
    → MemoryStore
    → Result Error (Option PayrollOperation)
linked_operation id r none s = ok none
linked_operation id r (some o) s = do
  guard (not (str_eq o.operation_id "")) Error.invalid_reservation
  existing ← or_fail (lookup o.operation_id s.operations) Error.operation_not_found
  guard (str_eq r.operation_id "" || str_eq r.operation_id o.operation_id) Error.invalid_reservation
  ok (
      some (record o {
        reservation_id = if str_eq existing.reservation_id "" then id else existing.reservation_id;
      }))

unfoldable pub put_operation_if : Option PayrollOperation → MemoryStore → MemoryStore
put_operation_if none s = s
put_operation_if (some o) s = put_operation o s

-- All the checks of `CompareAndSetReservationStatusWithOperation`.
unfoldable pub candidate_with_operation :
    String
    → ReservationStatus
    → ReservationStatus
    → Option PayrollOperation
    → MemoryStore
    → Result Error (NoteReservation × Option PayrollOperation)
candidate_with_operation id from to operation s = do
  guard (not (requires_lease_token from to)) Error.lease_mismatch
  r ← candidate id from to s
  update ← linked_operation id r operation s
  ok (r, update)

unfoldable pub commit_with_operation :
    ReservationStatus
    → ℕ
    → Result Error (NoteReservation × Option PayrollOperation)
    → Method (NoteReservation × Option PayrollOperation)
commit_with_operation to now (ok (r, o)) s =
    (ok (transitioned to now r, o), put_operation_if o (put_reservation (transitioned to now r) s))
commit_with_operation to now (err e) s = (err e, s)

-- `CompareAndSetReservationStatusWithOperation`.
unfoldable pub compare_and_set_with_operation :
    String
    → ReservationStatus
    → ReservationStatus
    → Option PayrollOperation
    → ℕ
    → Method (NoteReservation × Option PayrollOperation)
unfolding commit_with_operation
compare_and_set_with_operation id from to operation now s =
    commit_with_operation to now (candidate_with_operation id from to operation s) s

-- The checks of `UpdateReservation`.
unfoldable pub updatable : NoteReservation → MemoryStore → Result Error NoteReservation
updatable r s = do
  guard (contains r.reservation_id s.reservations) Error.reservation_not_found
  guard (not (is_active r.status && has_conflict r r.reservation_id s))
      Error.active_reservation_exists
  ok r

-- `UpdateReservation`.
unfoldable pub update_reservation : NoteReservation → Method NoteReservation
unfolding commit
update_reservation r s = commit (λ q. q) (updatable r s) s

-- `GetOperation`.
unfoldable pub get_operation : String → Method PayrollOperation
get_operation id s = (or_fail (lookup id s.operations) Error.operation_not_found, s)

-- `UpdateOperation`.
unfoldable pub update_operation : PayrollOperation → Method PayrollOperation
update_operation o s =
    if contains o.operation_id s.operations
    then (ok o, put_operation o s)
    else (err Error.operation_not_found, s)
