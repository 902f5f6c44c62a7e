-- ===== src/Reservation/Keeps.antt =====
-- memory_store.go: the methods on one reservation keep a valid store valid.
pub mod Leases
pub mod Batches
pub mod Creation
use clairveil.Prelude.{
  ℕ, String, Bool, true, false, not, ◌&&◌, ◌≡◌, ◌⊎◌, inl, inr, refl, Option, none, some, str_eq,
  str_eq_iff, arith, Bool-cases, Option-cases,
}
use clairveil.Prelude.Result.{Result, ok, err, >>=-eq-ok}
use clairveil.Prelude.Dict.{lookup, contains}
use clairveil.Reservation.Status.{
  ReservationStatus, is_active, status_eq, can_transition, requires_lease_token,
}
use clairveil.Reservation.Types.{Error, NoteReservation, PayrollOperation, active_key}
use clairveil.Reservation.Store.{MemoryStore, Method, put_reservation, has_conflict, commit}
use clairveil.Reservation.Transition.{
  find_reservation, transitioned, candidate, check_lease, compare_and_set_locked, compare_and_set,
  compare_and_set_with_lease, candidate_with_operation, linked_operation, commit_with_operation,
  put_operation_if, compare_and_set_with_operation, updatable, update_reservation,
}
use clairveil.Reservation.Invariant.{
  IsValid, Holds, IsFree, put-IsValid, put_operation-IsValid, has_conflict-IsFree,
}

abbrev pub Keeps : {A : Type 0} → Method A → Type 0
Keeps m = (s : MemoryStore) → IsValid s → IsValid (m s).1

pub transitioned_parts :
    (to : ReservationStatus) (now : ℕ) (r : NoteReservation)
    → (active_key (transitioned to now r) ≡ active_key r)
      × ((transitioned to now r).reservation_id ≡ r.reservation_id)
      × ((transitioned to now r).status ≡ to)
unfolding transitioned active_key
transitioned_parts ReservationStatus.proving now r = (refl, refl, refl)
transitioned_parts _ now r = (refl, refl, refl)

-- A write under a reservation's own id and key, which makes it active only if it was.
pub rewrite-IsFree :
    (s : MemoryStore) (id : String) (r q : NoteReservation)
    → IsValid s
    → Holds s id r
    → (is_active q.status ≡ true → is_active r.status ≡ true)
    → q.reservation_id ≡ r.reservation_id
    → active_key q ≡ active_key r
    → IsFree s q
rewrite-IsFree s id r q v h a ids keys act j e =
    ground (arith, v.keyed id r h, v.complete id r h (a act))

-- The guard on the candidate is a guard on what is written.
transition-IsFree :
    (s : MemoryStore) (id : String) (to : ReservationStatus) (now : ℕ) (r : NoteReservation)
    → IsValid s
    → Holds s id r
    → (is_active to && has_conflict (record r { status = to }) id s) ≡ false
    → IsFree s (transitioned to now r)
unfolding has_conflict active_key
transition-IsFree s id to now r v h g act j e =
    ground (arith, transitioned_parts to now r, v.keyed id r h, str_eq_iff j id)

pub find-Holds :
    (id : String) (s : MemoryStore) (r : NoteReservation)
    → find_reservation id s ≡ ok r
    → Holds s id r
unfolding find_reservation
find-Holds id s r h = ground arith

-- What the checks of a transition have established.
pub candidate-eq-ok :
    (id : String) (from to : ReservationStatus) (s : MemoryStore) (r : NoteReservation)
    → candidate id from to s ≡ ok r
    → Holds s id r
      × (status_eq r.status from ≡ true)
      × (can_transition from to ≡ true)
      × ((is_active to && has_conflict (record r { status = to }) id s) ≡ false)
unfolding candidate
candidate-eq-ok id from to s r h = ground arith

pub commit-IsValid :
    (f : NoteReservation → NoteReservation) (m : Result Error NoteReservation) (s : MemoryStore)
    → IsValid s
    → ((r : NoteReservation) → m ≡ ok r → IsFree s (f r))
    → IsValid (commit f m s).1
unfolding commit
commit-IsValid f (ok r) s v free = put-IsValid s (f r) v (free r refl)
commit-IsValid f (err e) s v free = v

transitioned-IsFree :
    (id : String) (from to : ReservationStatus) (now : ℕ) (s : MemoryStore) (r : NoteReservation)
    → IsValid s
    → candidate id from to s ≡ ok r
    → IsFree s (transitioned to now r)
transitioned-IsFree id from to now s r v h =
    let (at, _, _, clear) = candidate-eq-ok id from to s r h in
    transition-IsFree s id to now r v at clear

-- A transition keeps the index exact.
pub compare_and_set_locked-IsValid :
    (id : String) (from to : ReservationStatus) (now : ℕ)
    → Keeps (compare_and_set_locked id from to now)
unfolding compare_and_set_locked
compare_and_set_locked-IsValid id from to now s v =
    commit-IsValid (transitioned to now) (candidate id from to s) s v
      (λ r h. transitioned-IsFree id from to now s r v h)

pub compare_and_set-IsValid :
    (id : String) (from to : ReservationStatus) (now : ℕ) → Keeps (compare_and_set id from to now)
unfolding compare_and_set
compare_and_set-IsValid id from to now s v = elim (Bool-cases (requires_lease_token from to)) [
  | inl t ↦ rw t v
  | inr f ↦ rw f (compare_and_set_locked-IsValid id from to now s v)
]

pub compare_and_set_with_lease-IsValid :
    (id token : String) (from to : ReservationStatus) (now : ℕ)
    → Keeps (compare_and_set_with_lease id token from to now)
unfolding compare_and_set_with_lease
compare_and_set_with_lease-IsValid id token from to now s v =
    commit-IsValid (transitioned to now) _ s v λ r h.
      let (_, _, found) = >>=-eq-ok (check_lease id token now s) _ h in
      transitioned-IsFree id from to now s r v found

pub candidate_with_operation-eq-ok :
    (id : String) (from to : ReservationStatus) (o : Option PayrollOperation) (s : MemoryStore)
    (r : NoteReservation) (update : Option PayrollOperation)
    → candidate_with_operation id from to o s ≡ ok (r, update)
    → candidate id from to s ≡ ok r
unfolding candidate_with_operation
candidate_with_operation-eq-ok id from to o s r update h = ground arith

pub put_operation_if-IsValid :
    (o : Option PayrollOperation) (s : MemoryStore) → IsValid s → IsValid (put_operation_if o s)
unfolding put_operation_if
put_operation_if-IsValid none s v = v
put_operation_if-IsValid (some o) s v = put_operation-IsValid o s v

pub compare_and_set_with_operation-IsValid :
    (id : String) (from to : ReservationStatus) (o : Option PayrollOperation) (now : ℕ)
    → Keeps (compare_and_set_with_operation id from to o now)
unfolding compare_and_set_with_operation commit_with_operation
compare_and_set_with_operation-IsValid id from to o now s v =
    go (candidate_with_operation id from to o s) refl
  where
    go :
        (m : Result Error (NoteReservation × Option PayrollOperation))
        → candidate_with_operation id from to o s ≡ m
        → IsValid (commit_with_operation to now m s).1
    go (ok (r, update)) e = put_operation_if-IsValid update _ (
        put-IsValid s (transitioned to now r) v (
          transitioned-IsFree id from to now s r v
            (candidate_with_operation-eq-ok id from to o s r update e)))
    go (err x) e = v

updatable-IsFree :
    (r : NoteReservation) (s : MemoryStore) (q : NoteReservation)
    → updatable r s ≡ ok q
    → IsFree s q
unfolding updatable
updatable-IsFree r s q h =
    let e : r ≡ q = ground arith in rw (← e) (has_conflict-IsFree s r (ground arith))

pub update_reservation-IsValid : (r : NoteReservation) → Keeps (update_reservation r)
unfolding update_reservation
update_reservation-IsValid r s v =
    commit-IsValid (λ q. q) (updatable r s) s v (λ q h. updatable-IsFree r s q h)
