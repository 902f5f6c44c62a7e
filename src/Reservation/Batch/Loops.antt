-- ===== src/Reservation/Batch/Loops.antt =====
-- batch_memory_store.go: the writes to reservations of the loops over the inputs of a batch, as trails.
use clairveil.Prelude.{
  ℕ, String, Bool, true, false, ◌≡◌, inl, inr, refl, sym, subst, ◌∙◌, Option, none, some, List, [],
  ◌∷◌, All, arith, Bool-cases, Option-cases,
}
use clairveil.Prelude.Result.{ok, guard, >>=-then, ok-injective}
use clairveil.Prelude.Dict.{StringSet, lookup, contains}
use clairveil.Reservation.Status.{
  ReservationStatus, is_active, is_terminal, can_transition, status_eq,
}
use clairveil.Reservation.Status.Laws.{status_eq-true}
use clairveil.Reservation.Types.{NoteReservation, active_key}
use clairveil.Reservation.Store.{MemoryStore, put_reservation, clear_lease_fields}
use clairveil.Reservation.Transition.{transitioned, require_lease_token}
use clairveil.Reservation.Invariant.{IsValid, Holds}
use clairveil.Reservation.Keeps.{transitioned_parts}
use clairveil.Reservation.Batch.Types.{OperationInputReservation}
use clairveil.Reservation.Batch.Store.{
  BatchStore, inputs_of, input_reservations, clear_found, clear_input_leases, check_movable,
  moved_input, transition_inputs,
}
use clairveil.Reservation.Batch.Settle.{found_or_zero, settle_found, settle_inputs}
use clairveil.Reservation.Batch.Trail.{
  Trail, Writes, Drift, Trail-append, write-IsValid, Trail-IsValid,
}
use clairveil.Reservation.Batch.Trails.{
  Alike, Retains, Names, input_reservations-IsInput, rewrite-Trail,
}

moved_input-Retains : (to : ReservationStatus) (now : ℕ) → Retains (moved_input to now)
unfolding moved_input active_key
moved_input-Retains to now r = elim (Bool-cases (is_terminal to)) [
  | inl e ↦ rw e (refl, refl)
  | inr e ↦ rw e (refl, refl)
]

pub moved_input_id :
    (to : ReservationStatus) (now : ℕ) (r : NoteReservation)
    → (moved_input to now r).reservation_id ≡ r.reservation_id
moved_input_id to now r = (moved_input-Retains to now r).0

pub moved_input_status :
    (to : ReservationStatus) (now : ℕ) (r : NoteReservation) → (moved_input to now r).status ≡ to
unfolding moved_input
moved_input_status to now r = elim (Bool-cases (is_terminal to)) [
  | inl e ↦ rw e refl
  | inr e ↦ rw e refl
]

-- What the checks of a transition of the inputs have established of each.
abbrev pub IsMovable : ReservationStatus → ReservationStatus → String → ℕ → NoteReservation → Type 0
IsMovable from to token now r =
    (r.status ≡ from) × (require_lease_token r token now ≡ ok tt) × (can_transition from to ≡ true)

pub check_movable-IsMovable :
    (from to : ReservationStatus) (token : String) (now : ℕ) (rs : List NoteReservation)
    → check_movable from to token now rs ≡ ok tt
    → All (IsMovable from to token now) rs
unfolding check_movable
check_movable-IsMovable from to token now [] h = tt
check_movable-IsMovable from to token now (r ∷ rs) h =
    >>=-then (guard (status_eq r.status from) _) _ h λ _ same h.
      >>=-then (require_lease_token r token now) _ h λ _ held h.
        >>=-then (guard (can_transition from to) _) _ h λ _ allowed h. (
          (status_eq-true r.status from (ground arith), held, ground arith),
          check_movable-IsMovable from to token now rs h,
        )

module _ (P : String → Type 0) where
  pub held-Trail :
      (s t : MemoryStore) (id : String) (q r : NoteReservation)
      → IsValid s
      → P id
      → Holds s id q
      → r.reservation_id ≡ q.reservation_id
      → active_key r ≡ active_key q
      → Drift q.status r.status
      → (IsValid (put_reservation r s) → Trail P (put_reservation r s) t)
      → Trail P s t
  held-Trail s t id q r v p at ids key drift next =
      let e : id ≡ r.reservation_id = sym (v.keyed id q at) ∙ sym ids in
      let w : Writes s r = inr (q, subst (λ j. Holds s j q) e at, key, drift) in
      Trail.write r (subst P e p) w (next (write-IsValid s r v w))

  pub clear_input_leases-Trail :
      (is : List OperationInputReservation) (now : ℕ) (s : MemoryStore)
      → IsValid s
      → Names P is
      → Trail P s (clear_input_leases is now s)
  unfolding clear_input_leases clear_found active_key
  clear_input_leases-Trail [] now s v p = Trail.stay s
  clear_input_leases-Trail (i ∷ is) now s v p =
      elim (Option-cases (lookup i.reservation_id s.reservations)) [
        | inl e ↦ rw e (clear_input_leases-Trail is now s v p.1)
        | inr (r, e) ↦ rw e (
            held-Trail s _ i.reservation_id r (record (clear_lease_fields r) { updated_at = now }) v
              p.0 e refl refl (inl refl) (λ v'. clear_input_leases-Trail is now _ v' p.1))
      ]

  -- An exact transition between active statuses.
  pub transition_inputs-Trail :
      (id : String) (from to : ReservationStatus) (token : String) (now : ℕ) (b : BatchStore)
      (t : MemoryStore)
      → IsValid b.base
      → Names P (inputs_of id b)
      → is_active from ≡ true
      → is_active to ≡ true
      → transition_inputs id from to token now b ≡ ok t
      → Trail P b.base t
  unfolding transition_inputs
  transition_inputs-Trail id from to token now b t v p a a' h =
      >>=-then (input_reservations (inputs_of id b) b.base) _ h λ rs found h.
        >>=-then (check_movable from to token now rs) _ h λ _ checked h.
          subst (λ u. Trail P b.base u) (ok-injective h)
            (rewrite-Trail P (moved_input to now) rs b.base (moved_input-Retains to now)
              (input_reservations-IsInput P (inputs_of id b) b.base rs v p found)
              (go rs (check_movable-IsMovable from to token now rs checked)))
    where
      go :
          (qs : List NoteReservation)
          → All (IsMovable from to token now) qs
          → All (λ r. Alike r.status (moved_input to now r).status) qs
      go [] h = tt
      go (r ∷ qs) h = (inr (rw h.0.0 a, rw moved_input_status a'), go qs h.1)

  one-Trail :
      (s : MemoryStore) (r : NoteReservation)
      → P r.reservation_id
      → Writes s r
      → Trail P s (put_reservation r s)
  one-Trail s r p w = Trail.write r p w (Trail.stay _)

  spent-Trail :
      (s : MemoryStore) (now : ℕ) (r : NoteReservation)
      → P r.reservation_id
      → Trail P s (put_reservation (transitioned ReservationStatus.confirmed_spent now r) s)
  spent-Trail s now r p =
      let (_, ids, status) = transitioned_parts ReservationStatus.confirmed_spent now r in
      one-Trail s _ (subst P (sym ids) p) (inl status)

  replan-Trail :
      (s : MemoryStore) (now : ℕ) (id : String) (r : NoteReservation)
      → IsValid s
      → P id
      → Holds s id r
      → is_active r.status ≡ true
      → Trail P s (put_reservation (transitioned ReservationStatus.replan_required now r) s)
  replan-Trail s now id r v p at a =
      let (key, ids, _) = transitioned_parts ReservationStatus.replan_required now r in
      held-Trail s _ id r _ v p at ids key (inr a) (λ _. Trail.stay _)

  -- One input of the loop of `ReconcileBatchOperation`.
  pub settle_found-Trail :
      (is_spent replan : Bool) (now : ℕ) (id : String) (s : MemoryStore)
      → IsValid s
      → P id
      → P ""
      → Trail P s (settle_found is_spent replan now (found_or_zero (lookup id s.reservations)) s)
  unfolding settle_found found_or_zero is_active
  settle_found-Trail is_spent replan now id s v p z =
      go is_spent replan (lookup id s.reservations) refl
    where
      go :
          (is_spent replan : Bool) (o : Option NoteReservation)
          → lookup id s.reservations ≡ o
          → Trail P s (settle_found is_spent replan now (found_or_zero o) s)
      go true replan none e = spent-Trail s now (found_or_zero none) z
      go true replan (some r) e = spent-Trail s now r (subst P (sym (v.keyed id r e)) p)
      go false false o e = Trail.stay s
      go false true none e = Trail.stay s
      go false true (some r) e = elim (Bool-cases (is_active r.status)) [
        | inl a ↦ rw a (replan-Trail s now id r v p e a)
        | inr a ↦ rw a (Trail.stay s)
      ]

  pub settle_inputs-Trail :
      (spent : StringSet) (replan : Bool) (now : ℕ) (is : List OperationInputReservation)
      (s : MemoryStore)
      → IsValid s
      → Names P is
      → P ""
      → Trail P s (settle_inputs spent replan now is s)
  unfolding settle_inputs
  settle_inputs-Trail spent replan now [] s v p z = Trail.stay s
  settle_inputs-Trail spent replan now (i ∷ is) s v p z =
      let first =
        settle_found-Trail (contains i.reservation_id spent) replan now i.reservation_id s v p.0
          z in
      Trail-append first (settle_inputs-Trail spent replan now is _ (Trail-IsValid first v) p.1 z)
