-- ===== src/Reservation/Batch/Settlement.antt =====
-- batch_memory_store.go: what a reconciliation leaves in the store.
use clairveil.Prelude.{
  ℕ, String, true, not, ◌&&◌, ◌≡◌, ◌⊎◌, inl, inr, refl, sym, ap, subst, Option, none, some, List,
  [], ◌∷◌, length, All, arith, Option-cases, str_eq_refl,
}
use clairveil.Prelude.Result.{Result, ok, err, After, guard, >>=-then, ok-injective}
use clairveil.Prelude.Exec.{continue}
use clairveil.Prelude.Dict.{set_of, lookup, contains, lookup-insert}
use clairveil.Reservation.Status.{OperationStatus}
use clairveil.Reservation.Types.{Error, NoteReservation}
use clairveil.Reservation.Invariant.{IsValid, Holds}
use clairveil.Reservation.Calls.Spent.{IsSpent}
use clairveil.Reservation.Batch.Types.{
  BatchOperation, BatchBroadcastAttempt, OperationInputReservation, BatchReconcileUpdate,
  BatchOperationGraph,
}
use clairveil.Reservation.Batch.Store.{
  BatchStore, inputs_of, find_batch, batch_graph, clear_operation_lease,
}
use clairveil.Reservation.Batch.Settle.{is_conflict}
use clairveil.Reservation.Batch.Reconcile.{
  check_spent, check_observed, historical_attempt, reconcilable, proven, reconciled_batch, settled,
  put_reconciled, conclude, reconcile_batch,
}
use clairveil.Reservation.Batch.Trail.{Trail-IsValid, Trail-IsSpent}
use clairveil.Reservation.Batch.Loops.{settle_inputs-Trail, clear_input_leases-Trail}
use clairveil.Reservation.Batch.Validity.{all_named}
use clairveil.Reservation.Batch.Numbering.{Apart}
use clairveil.Reservation.Batch.Settling.{Anything, ids_of, settle_inputs-IsSpent}
use clairveil.Reservation.Batch.Named.{
  contains-set_of, check_spent-inputs, check_spent-Apart, pigeonhole,
}
use clairveil.Reservation.Batch.Verdict.{Warrant, Replaces, target-Warrant, target-Replaces}

module _ (id : String) (u : BatchReconcileUpdate) (now : ℕ) (b : BatchStore)
    (v : IsValid b.base) where
  settled-IsSpent :
      (op : BatchOperation) (j : String)
      → contains j (set_of u.spent_reservation_ids) ≡ true
      → contains j (set_of (ids_of (inputs_of id b))) ≡ true
      → (r : NoteReservation) × Holds b.base j r
      → IsSpent (settled id u now op b) j
  unfolding settled
  settled-IsSpent op j known input at =
      let replan = not (is_conflict op.status (proven id u b)) && u.tx_failed in
      let path =
        settle_inputs-Trail Anything (set_of u.spent_reservation_ids) replan now (inputs_of id b)
          b.base v (all_named (inputs_of id b)) tt in
      Trail-IsSpent j
        (clear_input_leases-Trail Anything (inputs_of id b) now _ (Trail-IsValid path v)
          (all_named (inputs_of id b)))
        (settle_inputs-IsSpent (set_of u.spent_reservation_ids) replan now j known (inputs_of id b)
          b.base v at input)

  -- A reservation that is not stored, or is `ConfirmedSpent` in the new store.
  abbrev pub IsMarked : BatchStore → String → Type 0
  IsMarked c j = (lookup j b.base.reservations ≡ none) ⊎ IsSpent c.base j

  All-IsMarked :
      (op : BatchOperation) (ids : List String) (c : BatchStore)
      → c.base ≡ settled id u now op b
      → All (λ j. contains j (set_of u.spent_reservation_ids) ≡ true) ids
      → All (λ j. contains j (set_of (ids_of (inputs_of id b))) ≡ true) ids
      → All (IsMarked c) ids
  All-IsMarked op [] c e h k = tt
  All-IsMarked op (j ∷ ids) c e h k = (
    elim (Option-cases (lookup j b.base.reservations)) [
      | inl missing ↦ inl missing
      | inr at ↦ inr (subst (λ s. IsSpent s j) (sym e) (settled-IsSpent op j h.0 k.0 at))
    ],
    All-IsMarked op ids c e h.1 k.1,
  )

  -- An input that the evidence names as spent, and that is not stored or is `ConfirmedSpent`.
  abbrev pub IsSpentInput : BatchStore → String → Type 0
  IsSpentInput c j = (contains j (set_of u.spent_reservation_ids) ≡ true) × IsMarked c j

  -- A batch that succeeded has all its inputs spent.
  abbrev pub Spends : OperationStatus → BatchStore → Type 0
  Spends OperationStatus.succeeded c = All (IsSpentInput c) (ids_of (inputs_of id b))
  Spends _ c = Unit

  -- The ids that the evidence names as spent are different inputs of the batch.
  abbrev pub NamesInputs : Type 0
  NamesInputs =
      Apart u.spent_reservation_ids
      × All (λ j. contains j (set_of (ids_of (inputs_of id b))) ≡ true) u.spent_reservation_ids

  -- The operation that a reconciliation stores, from the one before.
  abbrev pub Settles : BatchOperation → BatchOperationGraph → BatchStore → Type 0
  Settles op g c =
      (lookup id b.batch_operations ≡ some op)
      × (lookup id c.batch_operations ≡ some g.operation)
      × (g.operation.lease_token ≡ "")
      × Warrant u (length (inputs_of id b)) op.status g.operation.status
      × Replaces op.status g.operation.status
      × NamesInputs
      × All (IsMarked c) u.spent_reservation_ids
      × Spends g.operation.status c

  with_names :
      (c : BatchStore) (xs : List String)
      → All (λ j. contains j (set_of u.spent_reservation_ids) ≡ true) xs
      → All (IsMarked c) xs
      → All (IsSpentInput c) xs
  with_names c [] h k = tt
  with_names c (j ∷ xs) h k = ((h.0, k.0), with_names c xs h.1 k.1)

  length-ids_of : (is : List OperationInputReservation) → length (ids_of is) ≡ length is
  length-ids_of [] = refl
  length-ids_of (i ∷ is) = omega (arith, length-ids_of is)

  -- Different inputs that are as many as there are leave out none.
  warranted-Spends :
      (op : BatchOperation) (before after : OperationStatus) (c : BatchStore)
      → c.base ≡ settled id u now op b
      → NamesInputs
      → Warrant u (length (inputs_of id b)) before after
      → Spends after c
  warranted-Spends op before OperationStatus.succeeded c e (apart, among) w =
      let inputs = ids_of (inputs_of id b) in
      let known =
        pigeonhole u.spent_reservation_ids inputs apart among
          (omega (arith, length-ids_of (inputs_of id b), w.1)) in
      with_names c inputs known (All-IsMarked op inputs c e known (contains-set_of inputs))
  warranted-Spends op before _ c e names w = tt

  module _ (fold : ℕ → ℕ) where
    reconcilable-parts :
        (op : BatchOperation) (attempt : Option BatchBroadcastAttempt)
        → reconcilable fold id u b ≡ ok (op, attempt)
        → (lookup id b.batch_operations ≡ some op)
          × (check_spent (set_of (ids_of (inputs_of id b))) u.spent_reservation_ids [] ≡ ok tt)
    unfolding reconcilable find_batch
    reconcilable-parts op attempt h = >>=-then (find_batch id b) _ h λ o known h.
        >>=-then (historical_attempt fold o u) _ h λ a _ h.
          >>=-then (guard (not (u.tx_succeeded && u.tx_failed)) _) _ h λ _ _ h.
            >>=-then (check_spent (set_of (ids_of (inputs_of id b))) u.spent_reservation_ids []) _ h
              λ _ spent h.
                >>=-then (check_observed o.output_count u.observed_outputs []) _ h
                  λ _ _ h. let e = ok-injective h in (ground (arith, ap (λ x. x.0) e), spent)

    conclude-Settles :
        (op : BatchOperation) (attempt : Option BatchBroadcastAttempt)
        → reconcilable fold id u b ≡ ok (op, attempt)
        → let c = put_reconciled fold id u now op attempt b in
          Settles op (batch_graph id (reconciled_batch id u now op attempt b) c) c
    unfolding put_reconciled batch_graph reconciled_batch clear_operation_lease proven
    conclude-Settles op attempt h =
        let (known, spent) = reconcilable-parts op attempt h in
        let c = put_reconciled fold id u now op attempt b in
        let among =
          check_spent-inputs (set_of (ids_of (inputs_of id b))) u.spent_reservation_ids [] spent in
        let names : NamesInputs = (
          check_spent-Apart (set_of (ids_of (inputs_of id b))) u.spent_reservation_ids [] spent,
          among,
        ) in
        let warrant = target-Warrant u (length (inputs_of id b)) op.status in
        (
          known,
          rw (lookup-insert, str_eq_refl id) refl,
          refl,
          warrant,
          target-Replaces u (length (inputs_of id b)) op.status,
          names,
          All-IsMarked op u.spent_reservation_ids c refl (contains-set_of u.spent_reservation_ids)
              among,
          warranted-Spends op op.status _ c refl names warrant,
        )

    -- If `ReconcileBatchOperation` succeeds in a store with valid reservations, the ids that the evidence
    -- names as spent are different inputs of the batch, and each is ConfirmedSpent, if it is stored. The
    -- operation is stored without a lease and as one of these: Succeeded, for a transaction that succeeded
    -- with every input of the batch among the spent ones, and ConfirmedSpent, if it is stored; Failed, for a
    -- transaction that failed with none spent; ConflictSpent, if it was that, or was Failed and inputs are
    -- spent; or ManualReview. A terminal status is kept, or gives way to ManualReview or ConflictSpent. If
    -- the call fails, nothing has changed.
    pub reconcile_batch-Settles :
        let (r, c) = reconcile_batch fold id u now b in
        After r (λ g. (op : BatchOperation) × Settles op g c) (λ e. c ≡ b)
    unfolding reconcile_batch conclude
    reconcile_batch-Settles = go (reconcilable fold id u b) refl
      where
        go :
            (m : Result Error (BatchOperation × Option BatchBroadcastAttempt))
            → reconcilable fold id u b ≡ m
            → let (r, c) = continue m (conclude fold id u now) b in
              After r (λ g. (op : BatchOperation) × Settles op g c) (λ e. c ≡ b)
        go (err e) h = refl
        go (ok (op, attempt)) h = (op, conclude-Settles op attempt h)
