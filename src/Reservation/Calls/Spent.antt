-- ===== src/Reservation/Calls/Spent.antt =====
-- memory_store.go: a reservation that is confirmed as spent stays so, under every call but
-- `UpdateReservation`, which writes what its caller passes.
use clairveil.Prelude.{
  ℕ, String, ◌≡◌, ◌≢◌, refl, sym, ◌∙◌, none, List, [], ◌∷◌, All, str_eq, str_eq_iff, arith,
  Bool-cases, inl, inr,
}
use clairveil.Prelude.Result.{Result, ok, err, >>=-eq-ok}
use clairveil.Prelude.Dict.{StringSet, lookup, insert}
use clairveil.Reservation.Status.{ReservationStatus, can_transition}
use clairveil.Reservation.Status.Laws.{status_eq-true}
use clairveil.Reservation.Types.{Error, NoteReservation, PayrollOperation}
use clairveil.Reservation.Store.{MemoryStore, put_reservation, put_operation, commit}
use clairveil.Reservation.Transition.{transitioned, candidate}
use clairveil.Reservation.Create.{
  validate_reservation_create, validate_reservations, put_reservations, put_operations,
}
use clairveil.Reservation.Invariant.{IsValid, Holds, lookup-put}
use clairveil.Reservation.Keeps.{candidate-eq-ok, transitioned_parts}
use clairveil.Reservation.Keeps.Creation.{validate_create-absent}

abbrev pub IsSpent : MemoryStore → String → Type 0
IsSpent s id = (r : NoteReservation) × Holds s id r × (r.status ≡ ReservationStatus.confirmed_spent)

module _ (s : MemoryStore) (id : String) (spent : IsSpent s id) where
  -- A reservation of a valid store with the spent one's id is the spent one.
  pub found-spent :
      (j : String) (r : NoteReservation)
      → IsValid s
      → Holds s j r
      → r.reservation_id ≡ id
      → r.status ≡ ReservationStatus.confirmed_spent
  found-spent j r v h e = ground (arith, v.keyed j r h)

  pub put-IsSpent :
      (r : NoteReservation)
      → (r.reservation_id ≡ id → r.status ≡ ReservationStatus.confirmed_spent)
      → IsSpent (put_reservation r s) id
  put-IsSpent r keep = elim (Bool-cases (str_eq r.reservation_id id)) [
    | inl same ↦ (r, rw (lookup-put, same) refl, keep ((str_eq_iff r.reservation_id id).0 same))
    | inr differ ↦ (spent.0, rw (lookup-put, differ) spent.1, spent.2)
  ]

  pub commit-IsSpent :
      (f : NoteReservation → NoteReservation) (m : Result Error NoteReservation)
      → ((r : NoteReservation)
          → m ≡ ok r
          → (f r).reservation_id ≡ id
          → (f r).status ≡ ReservationStatus.confirmed_spent)
      → IsSpent (commit f m s).1 id
  unfolding commit
  commit-IsSpent f (ok r) keep = put-IsSpent (f r) (keep r refl)
  commit-IsSpent f (err e) keep = spent

  -- No transition leaves `ConfirmedSpent`.
  pub transition-IsSpent :
      (j : String) (from to : ReservationStatus) (now : ℕ) (r : NoteReservation)
      → IsValid s
      → candidate j from to s ≡ ok r
      → (transitioned to now r).reservation_id ≡ id
      → (transitioned to now r).status ≡ ReservationStatus.confirmed_spent
  unfolding can_transition
  transition-IsSpent j from to now r v h e =
      let (at, same, allowed, _) = candidate-eq-ok j from to s r h in
      let (_, ids, _) = transitioned_parts to now r in
      let spent_from : from ≡ ReservationStatus.confirmed_spent =
        sym (status_eq-true r.status from same) ∙ found-spent j r v at (sym ids ∙ e) in
      absurd (cc (rw spent_from at allowed))

pub put_reservations-IsSpent :
    (rs : List NoteReservation) (s : MemoryStore) (id : String)
    → All (λ r. r.reservation_id ≢ id) rs
    → IsSpent s id
    → IsSpent (put_reservations rs s) id
unfolding put_reservations
put_reservations-IsSpent [] s id h spent = spent
put_reservations-IsSpent (r ∷ rs) s id h spent =
    put_reservations-IsSpent rs (put_reservation r s) id h.1
      (put-IsSpent s id spent r (λ e. absurd (h.0 e)))

pub put_operations-IsSpent :
    (os : List PayrollOperation) (s : MemoryStore) (id : String)
    → IsSpent s id
    → IsSpent (put_operations os s) id
unfolding put_operations put_operation
put_operations-IsSpent [] s id spent = spent
put_operations-IsSpent (o ∷ os) s id spent = put_operations-IsSpent os (put_operation o s) id spent

-- New reservations have new ids.
pub validate_reservations-absent :
    (rs : List NoteReservation) (pending keys : StringSet) (s : MemoryStore)
    → validate_reservations rs pending keys s ≡ ok tt
    → All (λ r. lookup r.reservation_id s.reservations ≡ none) rs
unfolding validate_reservations
validate_reservations-absent [] pending keys s h = tt
validate_reservations-absent (r ∷ rs) pending keys s h =
    let (keys', e, h') = >>=-eq-ok (validate_reservation_create r pending keys s) _ h in
    (
      validate_create-absent r pending keys keys' s e,
      validate_reservations-absent rs (insert r.reservation_id tt pending) keys' s h',
    )
