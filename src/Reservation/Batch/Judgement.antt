-- ===== src/Reservation/Batch/Judgement.antt =====
-- batch_memory_store.go: the loop of `ReconcileBatchOperation` over the items, and their evidence.
use clairveil.Prelude.{
  ℕ, true, not, ◌||◌, ◌≡◌, inl, inr, refl, ap, ◌∙◌, Option, none, some, List, [], ◌∷◌, All, All-map,
  get_elem?, arith, Bool-cases,
}
use clairveil.Prelude.Int.{ℤ}
use clairveil.Reservation.Links.{is_nil}
use clairveil.Reservation.Batch.Types.{
  PayrollItemOutput, ExpectedOutputEvidence, ObservedOutputEvidence, BatchReconcileUpdate,
}
use clairveil.Reservation.Batch.Texts.{observed_output_matches}
use clairveil.Reservation.Batch.Items.{
  position_from, observed_at, observe_at, is_judged, reviewed, judged, judge_observed, judge,
  judge_items,
}
use clairveil.Reservation.Batch.Evidenced.{
  Some, get_elem?-Some, IsFor, position_from-IsFor, observe_at-Some, IsFor-Ignores, Agrees,
  IsEvidenced, Agrees-Ignores, kept-Rests,
}

module _ (fold : ℕ → ℕ) (u : BatchReconcileUpdate) where
  module _ (is₀ : List PayrollItemOutput) (es₀ : List ExpectedOutputEvidence) (now : ℕ) where
    abbrev Reaches : List ExpectedOutputEvidence → Type 0
    Reaches es =
        (index : ℤ) (o : ObservedOutputEvidence)
        → Some (Agrees fold u index o) es
        → Some (Agrees fold u index o) es₀

    observed-IsEvidenced :
        (es : List ExpectedOutputEvidence) (k : ℕ) (e : ExpectedOutputEvidence)
        (o : Option ObservedOutputEvidence) (i : PayrollItemOutput)
        → Some (λ x. x ≡ i) is₀
        → Reaches es
        → get_elem? es k ≡ some e
        → IsFor i.output_index e
        → observed_at i.output_index u.observed_outputs ≡ o
        → u.tx_succeeded ≡ true
        → IsEvidenced fold u is₀ es₀ (judge_observed fold e o now i)
    unfolding judge_observed reviewed judged
    observed-IsEvidenced es k e none i own back elem for seen won =
        elim (Bool-cases (is_judged i.evidence_status)) [
          | inl h ↦ rw h (kept-Rests fold u is₀ es₀ i i.evidence_status own refl)
          | inr h ↦ rw h tt
        ]
    observed-IsEvidenced es k e (some o) i own back elem for seen won =
        elim (Bool-cases (observed_output_matches fold e o)) [
          | inr h ↦ rw h tt
          | inl h ↦ elim (Bool-cases (o.audit_delivery_failed || o.self_view_delivery_failed)) [
            | inl f ↦ rw (h, f) tt
            | inr f ↦
                rw (h, f)
                  (inr (
                    won,
                    (
                      o,
                      seen,
                      ground arith,
                      ground arith,
                      back i.output_index o
                          (get_elem?-Some (Agrees fold u i.output_index o) es k e elem (for, h)),
                    ),
                  ))
          ]
        ]

    judge-IsEvidenced :
        (es : List ExpectedOutputEvidence) (k : ℕ) (e : ExpectedOutputEvidence)
        (i : PayrollItemOutput)
        → Some (λ x. x ≡ i) is₀
        → Reaches es
        → get_elem? es k ≡ some e
        → IsFor i.output_index e
        → IsEvidenced fold u is₀ es₀
            (judge fold u e (observed_at i.output_index u.observed_outputs) now i)
    unfolding judge judged reviewed
    judge-IsEvidenced es k e i own back elem for = elim (Bool-cases u.tx_succeeded) [
      | inl won ↦ simp won (
          observed-IsEvidenced es k e (observed_at i.output_index u.observed_outputs) i own back
            elem for refl won)
      | inr lost ↦ elim (Bool-cases u.tx_failed) [
        | inl failed ↦ simp (lost, failed) tt
        | inr pending ↦ elim (Bool-cases (not (is_nil u.spent_reservation_ids))) [
          | inl spent ↦ simp (lost, pending, spent) tt
          | inr unspent ↦
              simp (lost, pending, unspent) (kept-Rests fold u is₀ es₀ i i.evidence_status own refl)
        ]
      ]
    ]

    pub judge_items-IsEvidenced :
        (is : List PayrollItemOutput) (es : List ExpectedOutputEvidence)
        → All (λ i. Some (λ x. x ≡ i) is₀) is
        → All (λ i. Some (IsFor i.output_index) es) is
        → Reaches es
        → All (IsEvidenced fold u is₀ es₀) (judge_items fold u now is es).0
    unfolding judge_items
    judge_items-IsEvidenced [] es own has back = tt
    judge_items-IsEvidenced (i ∷ is) es own has back =
        let o = observed_at i.output_index u.observed_outputs in
        let at = position_from 0 0 i.output_index es in
        (
          elim (position_from-IsFor 0 0 i.output_index es) [
            | inl (here, absent) ↦ absurd (absent has.0)
            | inr (k, e, pos, elem, for) ↦
                let e' : get_elem? es at ≡ some e =
                  ap (λ n. get_elem? es n) (pos ∙ omega arith) ∙ elem in
                rw e' (judge-IsEvidenced es k e i own.0 back elem for)
          ],
          judge_items-IsEvidenced is (observe_at at o now es) own.1
              (All-map is
                (λ x h.
                  (observe_at-Some (IsFor x.output_index) (IsFor-Ignores x.output_index) at o now
                      es).0
                    h)
                has.1)
              (λ index p h. back index p (
                (observe_at-Some (Agrees fold u index p) (Agrees-Ignores fold u index p) at o now
                    es).1
                  h)),
        )
