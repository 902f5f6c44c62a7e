-- ===== src/Reservation/Batch/Evidenced.antt =====
-- batch_memory_store.go: what the status of a payroll item rests on after a reconciliation.
use clairveil.Prelude.{
  ℕ, suc, zero, ◌+◌, true, false, ◌≡◌, ◌⊎◌, inl, inr, refl, ap, subst, ◌∙◌, Option, none, some,
  List, [], ◌∷◌, get_elem?, arith, Bool-cases,
}
use clairveil.Prelude.Int.{ℤ}
use clairveil.Reservation.Batch.Types.{
  BatchItemEvidenceStatus, PayrollItemOutput, ExpectedOutputEvidence, ObservedOutputEvidence,
  BatchReconcileUpdate,
}
use clairveil.Reservation.Batch.Texts.{observed_output_matches}
use clairveil.Reservation.Batch.Create.{eq_ℤ}
use clairveil.Reservation.Batch.Items.{position_from, observed_at, with_observed, observe_at}

-- Some element has P.
abbrev pub Some : {A : Type 0} → (A → Type 0) → List A → Type 0
Some P [] = ⊥
Some P (x ∷ xs) = P x ⊎ Some P xs

pub get_elem?-Some :
    {A : Type 0} (P : A → Type 0) (xs : List A) (n : ℕ) (x : A)
    → get_elem? xs n ≡ some x
    → P x
    → Some P xs
get_elem?-Some P [] n x h p = absurd (cc)
get_elem?-Some P (y ∷ ys) zero x h p = inl (subst P (ground arith) p)
get_elem?-Some P (y ∷ ys) (suc n) x h p = inr (get_elem?-Some P ys n x h p)

abbrev pub IsFor : ℤ → ExpectedOutputEvidence → Type 0
IsFor index e = eq_ℤ e.output_index index ≡ true

-- The position is that of evidence with the index, if there is such evidence.
pub position_from-IsFor :
    (at found : ℕ) (index : ℤ) (es : List ExpectedOutputEvidence)
    → ((position_from at found index es ≡ found) × (Some (IsFor index) es → ⊥))
      ⊎ ((k : ℕ) × (e : ExpectedOutputEvidence) × (position_from at found index es ≡ at + k)
          × (get_elem? es k ≡ some e)
          × IsFor index e)
unfolding position_from
position_from-IsFor at found index [] = inl (refl, λ h. h)
position_from-IsFor at found index (e ∷ es) = elim (Bool-cases (eq_ℤ e.output_index index)) [
  | inl same ↦ elim (position_from-IsFor (suc at) at index es) [
    | inl (here, absent) ↦ inr (0, e, rw same (here ∙ omega arith), refl, same)
    | inr (k, x, pos, elem, for) ↦ inr (suc k, x, rw same (pos ∙ omega arith), elem, for)
  ]
  | inr differ ↦ elim (position_from-IsFor (suc at) found index es) [
    | inl (here, absent) ↦
        inl
          (rw differ here, λ h. elim h [ inl this ↦ cc (this, differ) | inr later ↦ absent later ])
    | inr (k, x, pos, elem, for) ↦ inr (suc k, x, rw differ (pos ∙ omega arith), elem, for)
  ]
]

-- What does not read what was observed.
abbrev pub Ignores : (ExpectedOutputEvidence → Type 0) → Type 0
Ignores P =
    (e : ExpectedOutputEvidence) (o : ObservedOutputEvidence) (now : ℕ)
    → (P e → P (with_observed o now e)) × (P (with_observed o now e) → P e)

module _ (P : ExpectedOutputEvidence → Type 0) (ignores : Ignores P) where
  pub observe_at-Some :
      (at : ℕ) (o : Option ObservedOutputEvidence) (now : ℕ) (es : List ExpectedOutputEvidence)
      → (Some P es → Some P (observe_at at o now es))
        × (Some P (observe_at at o now es) → Some P es)
  unfolding observe_at
  observe_at-Some at none now es = (λ h. h, λ h. h)
  observe_at-Some at (some o) now [] = (λ h. h, λ h. h)
  observe_at-Some zero (some o) now (e ∷ es) = (
    λ h. elim h [ inl p ↦ inl ((ignores e o now).0 p) | inr l ↦ inr l ],
    λ h. elim h [ inl p ↦ inl ((ignores e o now).1 p) | inr l ↦ inr l ],
  )
  observe_at-Some (suc at) (some o) now (e ∷ es) =
      let (to, back) = observe_at-Some at (some o) now es in
      (
        λ h. elim h [ inl p ↦ inl p | inr l ↦ inr (to l) ],
        λ h. elim h [ inl p ↦ inl p | inr l ↦ inr (back l) ],
      )

pub IsFor-Ignores : (index : ℤ) → Ignores (IsFor index)
unfolding with_observed
IsFor-Ignores index e o now = (λ h. h, λ h. h)

module _ (fold : ℕ → ℕ) (u : BatchReconcileUpdate) where
  -- The item was Succeeded before.
  abbrev pub WasSucceeded : ℤ → PayrollItemOutput → Type 0
  WasSucceeded index old =
      (old.output_index ≡ index) × (old.evidence_status ≡ BatchItemEvidenceStatus.succeeded)

  -- Evidence for the index that agrees with what was observed.
  abbrev pub Agrees : ℤ → ObservedOutputEvidence → ExpectedOutputEvidence → Type 0
  Agrees index o e = (eq_ℤ e.output_index index ≡ true) × (observed_output_matches fold e o ≡ true)

  -- The transaction succeeded, and the output was observed as expected and delivered.
  abbrev pub IsObserved : ℤ → List ExpectedOutputEvidence → Type 0
  IsObserved index es =
      (u.tx_succeeded ≡ true)
      × ((o : ObservedOutputEvidence) × (observed_at index u.observed_outputs ≡ some o)
          × (o.audit_delivery_failed ≡ false)
          × (o.self_view_delivery_failed ≡ false)
          × Some (Agrees index o) es)

  -- What a status of an item rests on, from the items and the evidence before.
  abbrev pub Rests :
      List PayrollItemOutput → List ExpectedOutputEvidence → ℤ → BatchItemEvidenceStatus → Type 0
  Rests is es index BatchItemEvidenceStatus.succeeded =
      Some (WasSucceeded index) is ⊎ IsObserved index es
  Rests is es index _ = Unit

  abbrev pub IsEvidenced :
      List PayrollItemOutput → List ExpectedOutputEvidence → PayrollItemOutput → Type 0
  IsEvidenced is es i = Rests is es i.output_index i.evidence_status

  pub Agrees-Ignores : (index : ℤ) (o : ObservedOutputEvidence) → Ignores (Agrees index o)
  unfolding with_observed observed_output_matches
  Agrees-Ignores index o e p now = (λ h. h, λ h. h)

  -- An item that keeps its status rests on itself.
  pub kept-Rests :
      (is : List PayrollItemOutput) (es : List ExpectedOutputEvidence) (i : PayrollItemOutput)
      (status : BatchItemEvidenceStatus)
      → Some (λ x. x ≡ i) is
      → i.evidence_status ≡ status
      → Rests is es i.output_index status
  kept-Rests is es i BatchItemEvidenceStatus.succeeded h e = inl (go is h)
    where
      go : (l : List PayrollItemOutput) → Some (λ x. x ≡ i) l → Some (WasSucceeded i.output_index) l
      go [] h = h
      go (x ∷ l) (inl same) =
          inl (ap (λ k. k.output_index) same, ap (λ k. k.evidence_status) same ∙ e)
      go (x ∷ l) (inr later) = inr (go l later)
  kept-Rests is es i _ h e = tt
