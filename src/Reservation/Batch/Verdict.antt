-- ===== src/Reservation/Batch/Verdict.antt =====
-- batch_memory_store.go: what warrants the status that a reconciliation stores.
use clairveil.Prelude.{
  ℕ, true, false, ◌&&◌, ◌||◌, ◌==◌, ◌≡◌, ◌≢◌, ◌⊎◌, inl, inr, refl, length, arith, Bool-cases,
  ==_iff, ltb,
}
use clairveil.Reservation.Status.{OperationStatus, is_terminal_operation}
use clairveil.Reservation.Evidence.{operation_status_eq}
use clairveil.Reservation.Evidence.Laws.{operation_status_eq-true}
use clairveil.Reservation.Batch.Types.{BatchReconcileUpdate}
use clairveil.Reservation.Batch.Settle.{proven_status, is_conflict, target_status}

-- What a status rests on, if `count` inputs had the operation's status before.
abbrev pub Warrant : BatchReconcileUpdate → ℕ → OperationStatus → OperationStatus → Type 0
Warrant u count before OperationStatus.succeeded =
    (u.tx_succeeded ≡ true) × (length u.spent_reservation_ids ≡ count)
Warrant u count before OperationStatus.failed =
    (u.tx_failed ≡ true) × (length u.spent_reservation_ids ≡ 0)
Warrant u count before OperationStatus.conflict_spent =
    (before ≡ OperationStatus.conflict_spent)
    ⊎ ((before ≡ OperationStatus.failed) × (length u.spent_reservation_ids ≢ 0))
Warrant u count before OperationStatus.manual_review = Unit
Warrant u count before _ = ⊥

-- A terminal status is kept, or gives way to one that says that the outcomes contradict.
abbrev pub Replaces : OperationStatus → OperationStatus → Type 0
Replaces before after =
    (is_terminal_operation before ≡ false)
    ⊎ (after ≡ before)
    ⊎ (after ≡ OperationStatus.manual_review)
    ⊎ (after ≡ OperationStatus.conflict_spent)

module _ (u : BatchReconcileUpdate) (count : ℕ) (before : OperationStatus) where
  abbrev spent_count : ℕ
  spent_count = length u.spent_reservation_ids

  abbrev outcome : OperationStatus
  outcome = proven_status u.tx_succeeded u.tx_failed spent_count count

  proven-Warrant : Warrant u count before outcome
  unfolding proven_status
  proven-Warrant = elim (Bool-cases (u.tx_succeeded && spent_count == count)) [
    | inl e ↦ rw e (ground arith, ground (arith, ==_iff spent_count count))
    | inr e ↦ elim (Bool-cases (u.tx_failed && spent_count == 0)) [
      | inl f ↦ rw (e, f) (ground arith, ground (arith, ==_iff spent_count 0))
      | inr f ↦ rw (e, f) tt
    ]
  ]

  pub target-Warrant : Warrant u count before (target_status before outcome spent_count)
  unfolding target_status
  target-Warrant = elim (Bool-cases (is_conflict before outcome)) [
    | inr e ↦ rw e proven-Warrant
    | inl e ↦
        elim (Bool-cases (
          operation_status_eq before OperationStatus.conflict_spent
          || (operation_status_eq before OperationStatus.failed && ltb 0 spent_count))) [
            | inl f ↦ rw (e, f) (contradicted f)
            | inr f ↦ rw (e, f) tt
          ]
  ]
    where
      contradicted :
          (operation_status_eq before OperationStatus.conflict_spent
              || (operation_status_eq before OperationStatus.failed && ltb 0 spent_count))
            ≡ true
          → (before ≡ OperationStatus.conflict_spent)
            ⊎ ((before ≡ OperationStatus.failed) × (spent_count ≢ 0))
      contradicted f =
          elim (Bool-cases (operation_status_eq before OperationStatus.conflict_spent)) [
            | inl g ↦ inl (operation_status_eq-true before OperationStatus.conflict_spent g)
            | inr g ↦ inr (
              operation_status_eq-true before OperationStatus.failed (ground arith),
              ground arith,
            )
          ]

  pub target-Replaces : Replaces before (target_status before outcome spent_count)
  unfolding target_status is_conflict
  target-Replaces = elim (Bool-cases (is_terminal_operation before)) [
    | inr e ↦ inl e
    | inl e ↦ elim (Bool-cases (operation_status_eq outcome before)) [
      | inl f ↦ inr (inl (rw (e, f) (operation_status_eq-true outcome before f)))
      | inr f ↦
          elim (Bool-cases (
            operation_status_eq before OperationStatus.conflict_spent
            || (operation_status_eq before OperationStatus.failed && ltb 0 spent_count))) [
              | inl g ↦ inr (inr (inr (rw (e, f, g) refl)))
              | inr g ↦ inr (inr (inl (rw (e, f, g) refl)))
            ]
    ]
  ]
