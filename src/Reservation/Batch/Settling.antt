-- ===== src/Reservation/Batch/Settling.antt =====
-- batch_memory_store.go: the loop of `ReconcileBatchOperation` on the inputs, at one that is spent.
use clairveil.Prelude.{
  ℕ, String, Bool, true, ◌≡◌, inl, inr, sym, subst, List, [], ◌∷◌, map, arith, Bool-cases, str_eq,
  str_eq_iff,
}
use clairveil.Prelude.Dict.{StringSet, set_of, lookup, contains}
use clairveil.Reservation.Status.{ReservationStatus}
use clairveil.Reservation.Types.{NoteReservation}
use clairveil.Reservation.Store.{MemoryStore}
use clairveil.Reservation.Transition.{transitioned}
use clairveil.Reservation.Invariant.{IsValid, Holds, lookup-put}
use clairveil.Reservation.Keeps.{transitioned_parts}
use clairveil.Reservation.Calls.Spent.{IsSpent}
use clairveil.Reservation.Batch.Types.{OperationInputReservation}
use clairveil.Reservation.Batch.Settle.{found_or_zero, settle_found, settle_inputs}
use clairveil.Reservation.Batch.Trail.{Trail-IsValid, Trail-IsSpent, Trail-stored}
use clairveil.Reservation.Batch.Loops.{settle_found-Trail, settle_inputs-Trail}
use clairveil.Reservation.Batch.Validity.{all_named}
use clairveil.Reservation.Batch.Named.{contains-insert}

abbrev pub Anything : String → Type 0
Anything id = Unit {0}

abbrev pub ids_of : List OperationInputReservation → List String
ids_of is = map (λ (i : OperationInputReservation). i.reservation_id) is

module _ (spent : StringSet) (replan : Bool) (now : ℕ) (j : String)
    (known : contains j spent ≡ true) where
  -- The step on the spent input itself.
  step-IsSpent :
      (s : MemoryStore)
      → IsValid s
      → (r : NoteReservation) × Holds s j r
      → IsSpent
          (settle_found (contains j spent) replan now (found_or_zero (lookup j s.reservations)) s)
          j
  unfolding settle_found found_or_zero
  step-IsSpent s v (r, at) =
      let (_, ids, status) = transitioned_parts ReservationStatus.confirmed_spent now r in
      rw (known, at)
        (
          transitioned ReservationStatus.confirmed_spent now r,
          ground (
            arith,
            lookup-put s (transitioned ReservationStatus.confirmed_spent now r) j,
            str_eq_iff (transitioned ReservationStatus.confirmed_spent now r).reservation_id j,
            v.keyed j r at,
            ids,
          ),
          status,
        )

  pub settle_inputs-IsSpent :
      (is : List OperationInputReservation) (s : MemoryStore)
      → IsValid s
      → (r : NoteReservation) × Holds s j r
      → contains j (set_of (ids_of is)) ≡ true
      → IsSpent (settle_inputs spent replan now is s) j
  unfolding settle_inputs set_of contains lookup
  settle_inputs-IsSpent [] s v at h = absurd (cc)
  settle_inputs-IsSpent (i ∷ is) s v at h = elim (Bool-cases (str_eq i.reservation_id j)) [
    | inl same ↦
        let e = (str_eq_iff i.reservation_id j).0 same in
        let first =
          settle_found-Trail Anything (contains i.reservation_id spent) replan now i.reservation_id
            s v tt tt in
        Trail-IsSpent j
          (settle_inputs-Trail Anything spent replan now is _ (Trail-IsValid first v) (all_named is)
            tt)
          (subst
            (λ k.
              IsSpent
                (settle_found (contains k spent) replan now
                  (found_or_zero (lookup k s.reservations)) s)
                j)
            (sym e) (step-IsSpent s v at))
    | inr differ ↦
        let first =
          settle_found-Trail Anything (contains i.reservation_id spent) replan now i.reservation_id
            s v tt tt in
        settle_inputs-IsSpent is _ (Trail-IsValid first v) (Trail-stored j first at)
          (ground (arith, contains-insert i.reservation_id j (set_of (ids_of is))))
  ]
