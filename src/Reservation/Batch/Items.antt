-- ===== src/Reservation/Batch/Items.antt =====
-- batch_memory_store.go: what `ReconcileBatchOperation` makes of the items and of their evidence. A
-- graph has evidence for each of its items, since `CreateBatchOperation` checks it; on a graph without
-- evidence the source panics, and here the items stay as they are.
use clairveil.Prelude.{
  ℕ, zero, suc, String, Bool, true, false, not, ◌||◌, Option, none, some, List, [], ◌∷◌, map,
  get_elem?, if◌then◌else◌,
}
use clairveil.Prelude.Int.{ℤ}
use clairveil.Reservation.Links.{is_nil}
use clairveil.Reservation.Batch.Types.{
  PayrollItemOutput, BatchItemEvidenceStatus, ExpectedOutputEvidence, ObservedOutputEvidence,
  BatchReconcileUpdate,
}
use clairveil.Reservation.Batch.Texts.{observed_output_matches}
use clairveil.Reservation.Batch.Create.{eq_ℤ}
use clairveil.Reservation.Batch.Settle.{conflict_reason}

-- `evidenceByIndex[index]`: the last evidence with that index, or the first of all.
unfoldable pub position_from : ℕ → ℕ → ℤ → List ExpectedOutputEvidence → ℕ
unfolding eq_ℤ
position_from at found index [] = found
position_from at found index (e ∷ es) =
    position_from (suc at) (if eq_ℤ e.output_index index then at else found) index es

unfoldable pub observed_at : ℤ → List ObservedOutputEvidence → Option ObservedOutputEvidence
unfolding eq_ℤ
observed_at index [] = none
observed_at index (o ∷ os) =
    let rest = observed_at index os in if eq_ℤ o.output_index index then some o else rest

-- What was observed, written into the evidence.
unfoldable pub with_observed :
    ObservedOutputEvidence → ℕ → ExpectedOutputEvidence → ExpectedOutputEvidence
with_observed o now e = record e {
  observed_commitment = o.commitment;
  observed_user_digest = o.user_disclosure_digest;
  observed_full_digest = o.full_disclosure_digest;
  observed_recipient_hash = o.recipient_hash;
  audit_delivery_failed = o.audit_delivery_failed;
  self_view_delivery_failed = o.self_view_delivery_failed;
  updated_at = now;
}

unfoldable pub observe_at :
    ℕ
    → Option ObservedOutputEvidence
    → ℕ
    → List ExpectedOutputEvidence
    → List ExpectedOutputEvidence
unfolding with_observed
observe_at at none now es = es
observe_at at (some o) now [] = []
observe_at zero (some o) now (e ∷ es) = with_observed o now e ∷ es
observe_at (suc at) (some o) now (e ∷ es) = e ∷ observe_at at (some o) now es

-- `EvidenceStatus` is `Succeeded` or `ManualReview`.
unfoldable pub is_judged : BatchItemEvidenceStatus → Bool
is_judged BatchItemEvidenceStatus.succeeded = true
is_judged BatchItemEvidenceStatus.manual_review = true
is_judged _ = false

unfoldable pub reviewed : String → ℕ → PayrollItemOutput → PayrollItemOutput
reviewed reason now i = record i {
  evidence_status = BatchItemEvidenceStatus.manual_review;
  manual_review_reason = reason;
  updated_at = now;
}

unfoldable pub judged : BatchItemEvidenceStatus → ℕ → PayrollItemOutput → PayrollItemOutput
judged status now i = record i {
  evidence_status = status;
  manual_review_reason = "";
  updated_at = now;
}

module _ (fold : ℕ → ℕ) where
  -- The switch on an item, after a transaction that succeeded.
  unfoldable pub judge_observed :
      ExpectedOutputEvidence
      → Option ObservedOutputEvidence
      → ℕ
      → PayrollItemOutput
      → PayrollItemOutput
  unfolding observed_output_matches is_judged reviewed judged
  judge_observed expected none now i =
      if is_judged i.evidence_status
      then record i { updated_at = now }
      else reviewed "expected output evidence is missing" now i
  judge_observed expected (some o) now i =
      if not (observed_output_matches fold expected o)
      then reviewed "observed output evidence does not match the expected commitment/disclosure" now
          i
      else if o.audit_delivery_failed || o.self_view_delivery_failed
      then reviewed "disclosure delivery requires manual review" now i
      else judged BatchItemEvidenceStatus.succeeded now i

  -- The whole switch on an item.
  unfoldable pub judge :
      BatchReconcileUpdate
      → ExpectedOutputEvidence
      → Option ObservedOutputEvidence
      → ℕ
      → PayrollItemOutput
      → PayrollItemOutput
  unfolding judge_observed reviewed judged
  judge u expected o now i =
      if u.tx_succeeded
      then judge_observed expected o now i
      else if u.tx_failed
      then judged BatchItemEvidenceStatus.failed now i
      else if not (is_nil u.spent_reservation_ids)
      then reviewed "input nullifier spent without confirmed batch tx evidence" now i
      else judged i.evidence_status now i

  -- The loop on the items, which writes what was observed into the evidence.
  unfoldable pub judge_items :
      BatchReconcileUpdate
      → ℕ
      → List PayrollItemOutput
      → List ExpectedOutputEvidence
      → List PayrollItemOutput × List ExpectedOutputEvidence
  unfolding judge position_from observed_at observe_at
  judge_items u now [] es = ([], es)
  judge_items u now (i ∷ is) es =
      let at = position_from 0 0 i.output_index es in
      let o = observed_at i.output_index u.observed_outputs in
      let (rest, after) = judge_items u now is (observe_at at o now es) in
      (elim (get_elem? es at) [ none ↦ i | some e ↦ judge u e o now i ] ∷ rest, after)

  -- The items and the evidence that are stored.
  unfoldable pub judge_all :
      Bool
      → BatchReconcileUpdate
      → ℕ
      → List PayrollItemOutput
      → List ExpectedOutputEvidence
      → List PayrollItemOutput × List ExpectedOutputEvidence
  unfolding reviewed judge_items
  judge_all true u now is es = (map (reviewed conflict_reason now) is, es)
  judge_all false u now is es = judge_items u now is es
