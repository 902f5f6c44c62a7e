-- ===== src/Reservation/Batch/Accounting.antt =====
-- batch_memory_store.go: the payroll items that `ReconcileBatchOperation` stores, and their evidence.
use clairveil.Prelude.{
  ℕ, String, Bool, true, false, ◌≡◌, ◌⊎◌, inl, inr, refl, sym, subst, Option, List, [], ◌∷◌, map,
  All, All-map, Bool-cases,
}
use clairveil.Prelude.Int.{ℤ, leb_ℤ}
use clairveil.Prelude.Result.{Result, ok, err, After}
use clairveil.Prelude.Exec.{continue}
use clairveil.Reservation.Types.{Error}
use clairveil.Reservation.Batch.Types.{
  BatchOperation, BatchBroadcastAttempt, PayrollItemOutput, ExpectedOutputEvidence,
  BatchReconcileUpdate,
}
use clairveil.Reservation.Batch.Store.{
  BatchStore, slice_at, place, sorted_by, sorted_items, sorted_evidence,
}
use clairveil.Reservation.Batch.Settle.{conflict_reason, is_conflict}
use clairveil.Reservation.Batch.Items.{reviewed, judge_all}
use clairveil.Reservation.Batch.Reconcile.{
  proven, reconcilable, put_reconciled, conclude, reconcile_batch,
}
use clairveil.Reservation.Batch.Sorting.{sorted_by-All, slice_at-insert}
use clairveil.Reservation.Batch.Evidenced.{Some, IsFor, IsEvidenced}
use clairveil.Reservation.Batch.Judgement.{judge_items-IsEvidenced}

module _ {A : Type 0} (index : A → ℤ) where
  place-Some : (P : A → Type 0) (x : A) (xs : List A) → P x ⊎ Some P xs → Some P (place index x xs)
  unfolding place
  place-Some P x [] h = h
  place-Some P x (y ∷ ys) h = elim (Bool-cases (leb_ℤ (index x) (index y))) [
    | inl e ↦ rw e h
    | inr e ↦ rw e (elim h [
      | inl p ↦ inr (place-Some P x ys (inl p))
      | inr (inl q) ↦ inl q
      | inr (inr later) ↦ inr (place-Some P x ys (inr later))
    ])
  ]

  sorted_by-Some : (P : A → Type 0) (xs : List A) → Some P xs → Some P (sorted_by index xs)
  unfolding sorted_by
  sorted_by-Some P [] h = h
  sorted_by-Some P (x ∷ xs) (inl p) = place-Some P x (sorted_by index xs) (inl p)
  sorted_by-Some P (x ∷ xs) (inr later) =
      place-Some P x (sorted_by index xs) (inr (sorted_by-Some P xs later))

own-Some : {A : Type 0} (xs : List A) → All (λ i. Some (λ x. x ≡ i) xs) xs
own-Some [] = tt
own-Some (x ∷ xs) = (inl refl, All-map xs (λ i h. inr h) (own-Some xs))

-- Each item of the batch has expected evidence for its output.
abbrev pub IsCovered : String → BatchStore → Type 0
IsCovered id b =
    All (λ (i : PayrollItemOutput). Some (IsFor i.output_index) (slice_at id b.batch_evidence))
      (slice_at id b.batch_items)

module _ (fold : ℕ → ℕ) (id : String) (u : BatchReconcileUpdate) (now : ℕ) (b : BatchStore)
    (covered : IsCovered id b) where
  abbrev pub items_before : List PayrollItemOutput
  items_before = sorted_items (slice_at id b.batch_items)

  abbrev pub evidence_before : List ExpectedOutputEvidence
  evidence_before = sorted_evidence (slice_at id b.batch_evidence)

  sorted_covered : All (λ i. Some (IsFor i.output_index) evidence_before) items_before
  unfolding sorted_items sorted_evidence
  sorted_covered =
      sorted_by-All (λ i. i.output_index) (λ i. Some (IsFor i.output_index) evidence_before)
        (slice_at id b.batch_items)
        (All-map (slice_at id b.batch_items)
          (λ i h.
            sorted_by-Some (λ e. e.output_index) (IsFor i.output_index)
              (slice_at id b.batch_evidence) h)
          covered)

  judge_all-IsEvidenced :
      (conflict : Bool)
      → All
          (IsEvidenced fold u items_before evidence_before)
          (judge_all fold conflict u now items_before evidence_before).0
  unfolding judge_all reviewed
  judge_all-IsEvidenced true = go items_before
    where
      go :
          (is : List PayrollItemOutput)
          → All
              (IsEvidenced fold u items_before evidence_before)
              (map (reviewed conflict_reason now) is)
      go [] = tt
      go (i ∷ is) = (tt, go is)
  judge_all-IsEvidenced false =
      judge_items-IsEvidenced fold u items_before evidence_before now items_before evidence_before
        (own-Some items_before) sorted_covered (λ index o h. h)

  put_reconciled-IsEvidenced :
      (op : BatchOperation) (attempt : Option BatchBroadcastAttempt)
      → All
          (IsEvidenced fold u items_before evidence_before)
          (slice_at id (put_reconciled fold id u now op attempt b).batch_items)
  unfolding put_reconciled sorted_items
  put_reconciled-IsEvidenced op attempt =
      let conflict = is_conflict op.status (proven id u b) in
      let items = (judge_all fold conflict u now items_before evidence_before).0 in
      subst (λ l. All (IsEvidenced fold u items_before evidence_before) l)
        (sym (slice_at-insert id (sorted_items items) b.batch_items))
        (sorted_by-All (λ i. i.output_index) (IsEvidenced fold u items_before evidence_before) items
          (judge_all-IsEvidenced conflict))

  -- If each item of a batch has expected evidence for its output, and `ReconcileBatchOperation`
  -- succeeds, then an item that it stores as Succeeded had an item of the same output that was so
  -- before, or the transaction succeeded and the output was observed, in agreement with its expected
  -- evidence and with all deliveries made. If the call fails, nothing has changed.
  pub reconcile_batch-IsEvidenced :
      let (r, c) = reconcile_batch fold id u now b in
      After r
        (λ g. All (IsEvidenced fold u items_before evidence_before) (slice_at id c.batch_items))
        (λ e. c ≡ b)
  unfolding reconcile_batch conclude
  reconcile_batch-IsEvidenced = go (reconcilable fold id u b)
    where
      go :
          (m : Result Error (BatchOperation × Option BatchBroadcastAttempt))
          → let (r, c) = continue m (conclude fold id u now) b in
            After r
              (λ g.
                All (IsEvidenced fold u items_before evidence_before) (slice_at id c.batch_items))
              (λ e. c ≡ b)
      go (err e) = refl
      go (ok (op, attempt)) = put_reconciled-IsEvidenced op attempt
