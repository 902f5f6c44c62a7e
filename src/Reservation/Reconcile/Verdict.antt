-- ===== src/Reservation/Reconcile/Verdict.antt =====
-- reconcile.go: when the evidence warrants which statuses.
use clairveil.Prelude.{
  ℕ, Bool, true, false, not, ◌&&◌, ◌≡◌, ◌≢◌, ◌⊎◌, inl, inr, refl, sym, subst, Option, none, some,
  Bool-cases, arith,
}
use clairveil.Reservation.Status.{
  ReservationStatus, OperationStatus, is_terminal, is_terminal_operation, status_eq,
}
use clairveil.Reservation.Status.Laws.{status_eq-true}
use clairveil.Reservation.Types.{NoteReservation, PayrollOperation}
use clairveil.Reservation.Evidence.{
  OperationEvidence, evidence_matches_tx, operation_matches, failed_target, reconciled,
  operation_status_eq, current_status,
}
use clairveil.Reservation.Evidence.Laws.{operation_status_eq-true, operation_status_eq-false}
use clairveil.Reservation.Reconcile.Agreement.{
  IsOf, Agrees, tx_matches-IsOf, operation_matches-Agrees,
}
use clairveil.Reservation.Reconcile.{
  Plan, plan, is_silent, is_failed, is_spent, silent_plan, failed_plan, spent_plan, terminal_plan,
}

-- Nothing is known of the transaction, and the nullifier was not seen spent.
pub record IsSilent (e : OperationEvidence) : Type 0 where
  pub unknown : e.tx_known ≡ false
  pub not_succeeded : e.tx_succeeded ≡ false
  pub not_failed : e.tx_failed ≡ false
  pub unspent : e.nullifier_spent ≡ false

-- The nullifier is spent, or the transaction succeeded and is not said to have failed too.
abbrev pub IsSeen : OperationEvidence → Type 0
IsSeen e = (e.nullifier_spent ≡ true) ⊎ ((e.tx_succeeded ≡ true) × (e.tx_failed ≡ false))

abbrev pub operation_of : Option PayrollOperation → OperationStatus
operation_of none = OperationStatus.unknown
operation_of (some o) = o.status

module _ (lower : ℕ → ℕ) where
  -- The statuses that evidence `e` about operation `o` stands for.
  pub data Warrants (o : Option PayrollOperation) (e : OperationEvidence)
      : ReservationStatus → OperationStatus → Type 0 where
    silent : IsSilent e → Warrants o e ReservationStatus.unknown OperationStatus.unknown
    failed_unmatched :
        e.tx_failed ≡ true
        → e.nullifier_spent ≡ false
        → evidence_matches_tx lower o e ≡ false
        → Warrants o e ReservationStatus.manual_review OperationStatus.manual_review
    -- The transaction of an operation that has ended otherwise.
    failed_ended :
        (p : PayrollOperation)
        → o ≡ some p
        → e.tx_failed ≡ true
        → e.nullifier_spent ≡ false
        → is_terminal_operation p.status ≡ true
        → p.status ≢ OperationStatus.failed
        → Warrants o e ReservationStatus.manual_review OperationStatus.manual_review
    failed :
        (p : PayrollOperation)
        → o ≡ some p
        → e.tx_failed ≡ true
        → e.nullifier_spent ≡ false
        → IsOf lower p e
        → (is_terminal_operation p.status ≡ false) ⊎ (p.status ≡ OperationStatus.failed)
        → Warrants o e ReservationStatus.failed OperationStatus.failed
    spent_unmatched :
        IsSeen e
        → operation_matches lower o e ≡ false
        → Warrants o e ReservationStatus.confirmed_spent OperationStatus.conflict_spent
    spent_matched :
        (p : PayrollOperation)
        → o ≡ some p
        → IsSeen e
        → Agrees lower p e
        → Warrants o e ReservationStatus.confirmed_spent OperationStatus.succeeded

  -- A reservation that is left as it is: it has ended, nothing is known and it is under review already, or
  -- it has the status that the evidence stands for.
  abbrev pub Stays : NoteReservation → Option PayrollOperation → OperationEvidence → Type 0
  Stays r o e =
      (is_terminal r.status ≡ true)
      ⊎ (IsSilent e × (r.status ≡ ReservationStatus.manual_review))
      ⊎ ((to : OperationStatus) × Warrants o e r.status to)

  abbrev pub IsWarranted :
      NoteReservation → Option PayrollOperation → OperationEvidence → Plan → Type 0
  IsWarranted r o e (Plan.answer result) =
      (result.reservation_status ≡ r.status)
      × (result.operation_status ≡ operation_of o)
      × Stays r o e
  IsWarranted r o e (Plan.move to operation_to finish) =
      Warrants o e to operation_to
      × ((q : ReservationStatus) (p : OperationStatus)
          → ((finish q p).reservation_status ≡ q) × ((finish q p).operation_status ≡ p))
  IsWarranted r o e Plan.refuse = Unit

  current_status-eq : (o : Option PayrollOperation) → current_status o ≡ operation_of o
  unfolding current_status
  current_status-eq none = refl
  current_status-eq (some o) = refl

  silent_plan-IsWarranted :
      (r : NoteReservation) (o : Option PayrollOperation) (e : OperationEvidence)
      → IsSilent e
      → IsWarranted r o e (silent_plan r o)
  unfolding silent_plan reconciled
  silent_plan-IsWarranted r o e h =
      elim (Bool-cases (status_eq r.status ReservationStatus.manual_review)) [
        | inl t ↦ rw t (refl, current_status-eq o, inr (inl (h, status_eq-true r.status _ t)))
        | inr f ↦ rw f elim (Bool-cases (status_eq r.status ReservationStatus.unknown)) [
          | inl t ↦
              let same = status_eq-true r.status ReservationStatus.unknown t in
              rw t (
                sym same,
                current_status-eq o,
                inr (
                    inr (
                      OperationStatus.unknown,
                      subst (λ c. Warrants o e c OperationStatus.unknown) (sym same)
                          (Warrants.silent h),
                    )),
              )
          | inr f ↦ rw f (Warrants.silent h, λ q p. (refl, refl))
        ]
      ]

  -- What `failedTxReconcileTarget` chooses is warranted.
  failed_target-Warrants :
      (o : Option PayrollOperation) (e : OperationEvidence)
      → e.tx_failed ≡ true
      → e.nullifier_spent ≡ false
      → evidence_matches_tx lower o e ≡ true
      → Warrants o e (failed_target o).0 (failed_target o).1
  unfolding failed_target evidence_matches_tx
  failed_target-Warrants none e fails unspent m = absurd (cc)
  failed_target-Warrants (some p) e fails unspent m =
      elim (Bool-cases (is_terminal_operation p.status)) [
        | inr going ↦
            rw going
              (Warrants.failed p refl fails unspent (tx_matches-IsOf lower p e m) (inl going))
        | inl ended ↦ elim (Bool-cases (operation_status_eq p.status OperationStatus.failed)) [
          | inl t ↦
              rw (ended, t)
                (Warrants.failed p refl fails unspent (tx_matches-IsOf lower p e m)
                  (inr (operation_status_eq-true p.status OperationStatus.failed t)))
          | inr f ↦
              rw (ended, f)
                (Warrants.failed_ended p refl fails unspent ended
                  (operation_status_eq-false p.status OperationStatus.failed f))
        ]
      ]

  failed_plan-IsWarranted :
      (r : NoteReservation) (o : Option PayrollOperation) (e : OperationEvidence) (b : Bool)
      → e.tx_failed ≡ true
      → e.nullifier_spent ≡ false
      → evidence_matches_tx lower o e ≡ b
      → IsWarranted r o e (failed_plan r o b)
  unfolding failed_plan reconciled
  failed_plan-IsWarranted r o e false fails unspent m =
      (Warrants.failed_unmatched fails unspent m, λ q p. (refl, refl))
  failed_plan-IsWarranted r o e true fails unspent m =
      let warranted = failed_target-Warrants o e fails unspent m in
      elim (Bool-cases (status_eq r.status (failed_target o).0)) [
        | inl t ↦
            let same = status_eq-true r.status (failed_target o).0 t in
            rw t (
              refl,
              current_status-eq o,
              inr (
                  inr (
                    (failed_target o).1,
                    subst (λ c. Warrants o e c (failed_target o).1) (sym same) warranted,
                  )),
            )
        | inr f ↦ rw f (warranted, λ q p. (refl, refl))
      ]

  spent_plan-IsWarranted :
      (r : NoteReservation) (o : Option PayrollOperation) (e : OperationEvidence) (b : Bool)
      → IsSeen e
      → operation_matches lower o e ≡ b
      → IsWarranted r o e (spent_plan b)
  unfolding spent_plan reconciled
  spent_plan-IsWarranted r o e false h m = (Warrants.spent_unmatched h m, λ q p. (refl, refl))
  spent_plan-IsWarranted r o e true h m =
      let (p, is, agrees) = operation_matches-Agrees lower o e m in
      (Warrants.spent_matched p is h agrees, λ q p. (refl, refl))

  is_silent-IsSilent : (e : OperationEvidence) → is_silent e ≡ true → IsSilent e
  unfolding is_silent
  is_silent-IsSilent e h = record {
    unknown = ground arith;
    not_succeeded = ground arith;
    not_failed = ground arith;
    unspent = ground arith;
  }

  pub plan-IsWarranted :
      (r : NoteReservation) (o : Option PayrollOperation) (e : OperationEvidence)
      → IsWarranted r o e (plan lower r o e)
  unfolding plan terminal_plan is_failed is_spent
  plan-IsWarranted r o e = elim (Bool-cases (is_terminal r.status)) [
    | inl t ↦ rw t (refl, current_status-eq o, inl t)
    | inr f ↦ rw f elim (Bool-cases (is_silent e)) [
      | inl t ↦ rw t (silent_plan-IsWarranted r o e (is_silent-IsSilent e t))
      | inr f ↦ rw f elim (Bool-cases (e.tx_failed && not e.nullifier_spent)) [
        | inl t ↦
            rw t (failed_plan-IsWarranted r o e _ (ground (arith, t)) (ground (arith, t)) refl)
        | inr f ↦ rw f elim (Bool-cases (is_spent e)) [
          | inl t ↦ rw t (spent_plan-IsWarranted r o e _ (seen f t) refl)
          | inr f ↦ rw f tt
        ]
      ]
    ]
  ]
    where
      seen : e.tx_failed && not e.nullifier_spent ≡ false → is_spent e ≡ true → IsSeen e
      seen f t = elim (Bool-cases e.nullifier_spent) [
        | inl spent ↦ inl spent
        | inr unspent ↦ inr (ground (arith, f, t, unspent), ground (arith, f, t, unspent))
      ]
