-- ===== src/Reservation/Reconcile/Outcome.antt =====
-- reconcile.go: what `Reconcile` changes in the store.
use clairveil.Prelude.{
  ℕ, ◌≡◌, inl, inr, refl, subst, sym, ◌∙◌, Option, none, some, Bool-cases, arith, String,
}
use mathlib.Core.Option.{some-injective}
use clairveil.Prelude.Result.{Result, ok, err, After}
use clairveil.Prelude.Exec.{continue}
use clairveil.Reservation.Status.{ReservationStatus, OperationStatus, requires_lease_token}
use clairveil.Reservation.Types.{Error, NoteReservation, PayrollOperation}
use clairveil.Reservation.Store.{MemoryStore, put_operation}
use clairveil.Reservation.Transition.{
  candidate_with_operation, commit_with_operation, compare_and_set_with_operation, put_operation_if,
}
use clairveil.Reservation.Transition.Effects.{Moves, transition-Moves}
use clairveil.Reservation.Invariant.{IsValid, Holds}
use clairveil.Reservation.Keeps.{find-Holds, candidate_with_operation-eq-ok}
use clairveil.Reservation.Evidence.{OperationEvidence, ReconcileResult}
use clairveil.Reservation.Reconcile.{
  Plan, plan, act, reconcile, reconcile_operation, reads_of, operation_update, returned_status,
}
use clairveil.Reservation.Reconcile.Verdict.{
  Warrants, Stays, IsWarranted, operation_of, plan-IsWarranted,
}
use clairveil.Reservation.Reconcile.Linked.{Follows, reconcile_operation-Follows}

with_operation-Moves :
    (s t : MemoryStore) (id : String) (from to : ReservationStatus) (old new : NoteReservation)
    (u : Option PayrollOperation)
    → Moves s t id from to old new
    → Moves s (put_operation_if u t) id from to old new
unfolding put_operation_if put_operation
with_operation-Moves s t id from to old new none m = m
with_operation-Moves s t id from to old new (some o) m = record {
  before = m.before;
  after = m.after;
  was = m.was;
  becomes = m.becomes;
  allowed = m.allowed;
  others = m.others;
}

-- The change of one reservation to `to`, or none where the call fails.
pub compare_and_set_with_operation-Moves :
    (id : String) (from to : ReservationStatus) (o : Option PayrollOperation) (now : ℕ)
    (s : MemoryStore)
    → IsValid s
    → let (result, t) = compare_and_set_with_operation id from to o now s in
      After result (λ p. (old : NoteReservation) × Moves s t id from to old p.0) (λ e. t ≡ s)
unfolding compare_and_set_with_operation commit_with_operation
compare_and_set_with_operation-Moves id from to o now s v =
    go (candidate_with_operation id from to o s) refl
  where
    go :
        (m : Result Error (NoteReservation × Option PayrollOperation))
        → candidate_with_operation id from to o s ≡ m
        → let (result, t) = commit_with_operation to now m s in
          After result (λ p. (old : NoteReservation) × Moves s t id from to old p.0) (λ e. t ≡ s)
    go (err x) h = refl
    go (ok (r, u)) h = (
      r,
      with_operation-Moves s _ id from to r _ u (
          transition-Moves id from to now s r v
            (candidate_with_operation-eq-ok id from to o s r u h)),
    )

same-Moves :
    (s t : MemoryStore) {i j : String} {from to c : ReservationStatus} {old r new : NoteReservation}
    → i ≡ j
    → old ≡ r
    → to ≡ c
    → Moves s t i from to old new
    → Moves s t j from c r new
same-Moves s t {i} {j} {from} {to} {c} {old} {r} {new} ids olds tos m =
    subst (λ x. Moves s t j from x r new) tos
      (subst (λ x. Moves s t j from to x new) olds (subst (λ x. Moves s t x from to old new) ids m))

pub held_same :
    (s : MemoryStore) {i j : String} {old r : NoteReservation}
    → i ≡ j
    → Holds s i old
    → Holds s j r
    → old ≡ r
held_same s {i} {j} {old} {r} ids a b =
    some-injective old r (sym (subst (λ x. Holds s x old) ids a) ∙ b)

-- The call that `Reconcile` makes on the store.
reconcile_operation-Moves :
    (r : NoteReservation) (o : Option PayrollOperation) (to : ReservationStatus)
    (operation_to : OperationStatus) (now : ℕ) (s : MemoryStore)
    → IsValid s
    → let (result, t) = reconcile_operation r o to operation_to now s in
      After result
        (λ p. (old : NoteReservation) × Moves s t r.reservation_id r.status to old p.0)
        (λ e. t ≡ s)
unfolding reconcile_operation
reconcile_operation-Moves r o to operation_to now s v =
    elim (Bool-cases (requires_lease_token r.status to)) [
      | inl t ↦ rw t refl
      | inr f ↦ rw f (
          go _ (
            compare_and_set_with_operation-Moves r.reservation_id r.status to
              (operation_update o operation_to now).0 now s v))
    ]
  where
    go :
        (m : Result Error (NoteReservation × Option PayrollOperation) × MemoryStore)
        → After m.0
            (λ p. (old : NoteReservation) × Moves s m.1 r.reservation_id r.status to old p.0)
            (λ e. m.1 ≡ s)
        → let (result, t) =
            continue {B = NoteReservation × OperationStatus} m.0
              (λ p t. (ok (p.0, returned_status p.1 (operation_update o operation_to now).1), t))
              m.1 in
          After result
            (λ p. (old : NoteReservation) × Moves s t r.reservation_id r.status to old p.0)
            (λ e. t ≡ s)
    go (ok p, t) h = h
    go (err e, t) h = h

pub reads_of-Holds :
    (id : String) (s : MemoryStore) (r : NoteReservation) (o : Option PayrollOperation)
    → reads_of id s ≡ ok (r, o)
    → Holds s id r
unfolding reads_of
reads_of-Holds id s r o h = ground (arith, find-Holds id s r)

module _ (lower : ℕ → ℕ) where
  -- What one `Reconcile` does to the reservation and the operation that it read.
  pub data Settles (id : String) (e : OperationEvidence) (s t : MemoryStore)
      (result : ReconcileResult) : Type 0 where
    unchanged :
        (old : NoteReservation) (o : Option PayrollOperation)
        → reads_of id s ≡ ok (old, o)
        → t ≡ s
        → result.reservation_status ≡ old.status
        → result.operation_status ≡ operation_of o
        → Stays lower old o e
        → Settles id e s t result
    moved :
        (o : Option PayrollOperation) (requested : OperationStatus) (old new : NoteReservation)
        → reads_of id s ≡ ok (old, o)
        → Warrants lower o e result.reservation_status requested
        → Moves s t id old.status result.reservation_status old new
        → Follows s t o requested result.operation_status
        → Settles id e s t result

  module _ (id : String) (e : OperationEvidence) (now : ℕ) (s : MemoryStore) (v : IsValid s) where
    act-Settles :
        (r : NoteReservation) (o : Option PayrollOperation) (p : Plan)
        → reads_of id s ≡ ok (r, o)
        → Holds s id r
        → IsWarranted lower r o e p
        → let (result, t) = act r o now p s in After result (Settles id e s t) (λ x. t ≡ s)
    unfolding act
    act-Settles r o (Plan.answer result) found at (kept, status, why) =
        Settles.unchanged r o found refl kept status why
    act-Settles r o Plan.refuse found at w = refl
    act-Settles r o (Plan.move to operation_to finish) found at w =
        go _ (reconcile_operation-Moves r o to operation_to now s v)
          (reconcile_operation-Follows r o to operation_to now s)
      where
        go :
            (m : Result Error (NoteReservation × OperationStatus) × MemoryStore)
            → After m.0
                (λ p. (old : NoteReservation) × Moves s m.1 r.reservation_id r.status to old p.0)
                (λ e. m.1 ≡ s)
            → After m.0 (λ p. Follows s m.1 o operation_to p.1) (λ e. m.1 ≡ s)
            → let (result, t) =
                continue {B = ReconcileResult} m.0 (λ p t. (ok (finish p.0.status p.1), t)) m.1 in
              After result (Settles id e s t) (λ x. t ≡ s)
        go (err x, t) h f = h
        go (ok (q, p), t) (old, h) f =
            let (shown, told) = w.1 q.status p in
            let becomes = shown ∙ h.becomes in
            Settles.moved o operation_to r q found
              (subst (λ c. Warrants lower o e c operation_to) (sym becomes) w.0)
              (same-Moves s t (v.keyed id r at) (held_same s (v.keyed id r at) h.before at)
                (sym becomes) h)
              (subst (Follows s t o operation_to) (sym told) f)

  -- From a valid store, a reconciliation that returns a result reports the status that the reservation
  -- under `id` now has, and the operation's. Either nothing has changed, and the reservation has ended, or
  -- was in manual review with nothing known of the transaction, or already had the status that the
  -- evidence stands for; or the reservation moved to that status along an allowed transition, with every
  -- other reservation left alone, and the operation that it names is stored with the status that goes with
  -- it, or keeps the one that it has ended with. The evidence stands for: Unknown, if nothing is known of
  -- the transaction and the nullifier; if the transaction failed and the nullifier is unspent, Failed only
  -- where a hash or the sign document is the operation's and the operation has not ended otherwise, and
  -- ManualReview elsewhere; ConfirmedSpent, if the nullifier is spent or the transaction succeeded without
  -- a report of a failure, with the operation Succeeded only where the transaction, output, disclosures,
  -- recipient, amount, denom and item agree, and ConflictSpent elsewhere. A reconciliation that returns an
  -- error changed nothing.
  pub reconcile-Settles :
      (id : String) (e : OperationEvidence) (now : ℕ) (s : MemoryStore)
      → IsValid s
      → let (result, t) = reconcile lower id e now s in After result (Settles id e s t) (λ x. t ≡ s)
  unfolding reconcile
  reconcile-Settles id e now s v = go (reads_of id s) refl
    where
      go :
          (m : Result Error (NoteReservation × Option PayrollOperation))
          → reads_of id s ≡ m
          → let (result, t) = continue m (λ p t. act p.0 p.1 now (plan lower p.0 p.1 e) t) s in
            After result (Settles id e s t) (λ x. t ≡ s)
      go (err x) h = refl
      go (ok (r, o)) h =
          act-Settles id e now s v r o (plan lower r o e) h (reads_of-Holds id s r o h)
            (plan-IsWarranted lower r o e)
