-- ===== src/Reservation/Transition/Effects.antt =====
-- memory_store.go: what a compare-and-set writes, and that nothing else changes.
use clairveil.Prelude.{ℕ, String, true, ◌≡◌, ◌≢◌, refl, str_eq_iff, arith}
use clairveil.Prelude.Result.{Result, ok, err, After}
use clairveil.Prelude.Dict.{lookup}
use clairveil.Reservation.Status.{ReservationStatus, can_transition}
use clairveil.Reservation.Status.Laws.{status_eq-true}
use clairveil.Reservation.Types.{Error, NoteReservation}
use clairveil.Reservation.Store.{MemoryStore, put_reservation, commit}
use clairveil.Reservation.Transition.{transitioned, candidate, compare_and_set_locked}
use clairveil.Reservation.Invariant.{IsValid, Holds, lookup-put}
use clairveil.Reservation.Keeps.{candidate-eq-ok, transitioned_parts}

-- The step of one reservation from `s` to `t`: `old` becomes `new` and no other one changes.
pub record Moves (s t : MemoryStore) (id : String) (from to : ReservationStatus)
    (old new : NoteReservation) : Type 0 where
  pub before : Holds s id old
  pub after : Holds t id new
  pub was : old.status ≡ from
  pub becomes : new.status ≡ to
  pub allowed : can_transition from to ≡ true
  pub others : (j : String) → j ≢ id → lookup j t.reservations ≡ lookup j s.reservations

pub transition-Moves :
    (id : String) (from to : ReservationStatus) (now : ℕ) (s : MemoryStore) (r : NoteReservation)
    → IsValid s
    → candidate id from to s ≡ ok r
    → Moves s (put_reservation (transitioned to now r) s) id from to r (transitioned to now r)
transition-Moves id from to now s r v h =
    let (at, same, can, _) = candidate-eq-ok id from to s r h in
    let (_, ids, status) = transitioned_parts to now r in
    let new = transitioned to now r in
    record {
      before = at;
      after =
          ground (arith, lookup-put s new id, str_eq_iff new.reservation_id id, v.keyed id r at);
      was = status_eq-true r.status from same;
      becomes = status;
      allowed = can;
      others = λ j n.
          ground (arith, lookup-put s new j, str_eq_iff new.reservation_id j, v.keyed id r at);
    }

-- A compare-and-set that succeeds on a valid store took the reservation under that id from `from` to
-- `to` along an allowed transition, returned what it stored, and changed no other reservation; one that
-- fails changes nothing.
pub compare_and_set_locked-Moves :
    (id : String) (from to : ReservationStatus) (now : ℕ) (s : MemoryStore)
    → IsValid s
    → let (result, t) = compare_and_set_locked id from to now s in
      After result (λ new. (old : NoteReservation) × Moves s t id from to old new) (λ e. t ≡ s)
unfolding compare_and_set_locked commit
compare_and_set_locked-Moves id from to now s v = go (candidate id from to s) refl
  where
    go :
        (m : Result Error NoteReservation)
        → candidate id from to s ≡ m
        → let (result, t) = commit (transitioned to now) m s in
          After result (λ new. (old : NoteReservation) × Moves s t id from to old new) (λ e. t ≡ s)
    go (err x) h = refl
    go (ok r) h = (r, transition-Moves id from to now s r v h)
