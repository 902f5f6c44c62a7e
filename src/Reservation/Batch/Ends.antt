-- ===== src/Reservation/Batch/Ends.antt =====
-- batch_memory_store.go: the writes to reservations of a broadcast and of a reconciliation, as trails.
-- Inputs that are not stored count as the zero reservation, with the empty id.
use clairveil.Prelude.{ℕ, String, not, ◌&&◌, ◌≡◌, inl, inr, refl, subst, Bool-cases, str_eq}
use clairveil.Prelude.Result.{ok, guard, >>=-then, ok-injective}
use clairveil.Reservation.Status.{ReservationStatus, OperationStatus, is_active}
use clairveil.Reservation.Store.{MemoryStore}
use clairveil.Reservation.Evidence.{operation_status_eq}
use clairveil.Reservation.Invariant.{IsValid}
use clairveil.Reservation.Batch.Types.{BatchOperation, BatchBroadcastUpdate, BatchReconcileUpdate}
use clairveil.Reservation.Batch.Store.{BatchStore, inputs_of}
use clairveil.Reservation.Batch.Broadcast.{
  follow, settle, recordable, staged, unstaged, unstaged_inputs, dispatch, dispatch,
  record_broadcast, sent_input, attempted, with_tx, sent,
}
use clairveil.Reservation.Batch.Reconcile.{
  reconcilable, settled, put_reconciled, conclude, reconcile_batch,
}
use clairveil.Reservation.Batch.Trail.{Trail, Trail-append, Trail-IsValid}
use clairveil.Reservation.Batch.Trails.{Names}
use clairveil.Reservation.Batch.Loops.{
  clear_input_leases-Trail, transition_inputs-Trail, settle_inputs-Trail,
}
use clairveil.Reservation.Batch.Rides.{Rides, continue-Trail, finish-Trail}

module _ (P : String → Type 0) (id : String) where
  follow-Trail :
      (token : String) (previous next : OperationStatus) (now : ℕ) (b : BatchStore)
      (t : MemoryStore)
      → IsValid b.base
      → Names P (inputs_of id b)
      → follow id token previous next now b ≡ ok t
      → Trail P b.base t
  unfolding follow is_active
  follow-Trail token previous next now b t v p h =
      elim (Bool-cases (
        operation_status_eq previous OperationStatus.proof_ready
        && operation_status_eq next OperationStatus.submitted)) [
          | inl e ↦
              transition_inputs-Trail P id _ ReservationStatus.submitted token now b t v p refl refl
                (rw e at h)
          | inr e ↦
              elim (Bool-cases (
                operation_status_eq previous OperationStatus.proof_ready
                && operation_status_eq next OperationStatus.unknown)) [
                  | inl f ↦
                      transition_inputs-Trail P id ReservationStatus.proof_ready _ token now b t v p
                        refl refl (rw (e, f) at h)
                  | inr f ↦
                      elim (Bool-cases (
                        operation_status_eq previous OperationStatus.submitted
                        && operation_status_eq next OperationStatus.unknown)) [
                          | inl g ↦
                              transition_inputs-Trail P id ReservationStatus.submitted _ token now b
                                t v p refl refl (rw (e, f, g) at h)
                          | inr g ↦
                              subst (λ u. Trail P b.base u) (ok-injective (rw (e, f, g) at h))
                                (Trail.stay b.base)
                        ]
                ]
        ]

  settle-Trail :
      (token : String) (previous : OperationStatus) (u : BatchBroadcastUpdate) (now : ℕ)
      (op : BatchOperation)
      → Rides P id (settle id token previous u now op)
  unfolding settle
  settle-Trail token previous u now op b v p =
      continue-Trail P id (follow id token previous op.status now b) _ b λ s h.
        finish-Trail P id now (attempted u now op) s b v p
          (follow-Trail token previous op.status now b s v p h)

  unstaged_inputs-Trail :
      (token : String) (u : BatchBroadcastUpdate) (now : ℕ) (op : BatchOperation) (b : BatchStore)
      (t : MemoryStore)
      → IsValid b.base
      → Names P (inputs_of id b)
      → unstaged_inputs id token u now op b ≡ ok t
      → Trail P b.base t
  unfolding unstaged_inputs is_active
  unstaged_inputs-Trail token u now op b t v p h =
      >>=-then (guard (operation_status_eq op.status OperationStatus.proof_ready) _) _ h λ _ _ h.
        transition_inputs-Trail P id ReservationStatus.proof_ready (sent_input u.is_unknown) token
          now b t v p refl
          (elim (Bool-cases u.is_unknown) [ inl e ↦ rw e refl | inr e ↦ rw e refl ]) h

  unstaged-Trail :
      (token : String) (u : BatchBroadcastUpdate) (now : ℕ) (op : BatchOperation)
      → Rides P id (unstaged id token u now op)
  unfolding unstaged
  unstaged-Trail token u now op b v p =
      continue-Trail P id (unstaged_inputs id token u now op b) _ b λ s h.
        let path = unstaged_inputs-Trail token u now op b s v p h in
        Trail-append path (
          settle-Trail token op.status u now (record (with_tx u op) { status = sent u.is_unknown })
            (record b { base = s }) (Trail-IsValid path v) p)

  module _ (fold : ℕ → ℕ) where
    pub record_broadcast-Rides :
        (token : String) (u : BatchBroadcastUpdate) (now : ℕ)
        → Rides P id (record_broadcast fold id token u now)
    unfolding record_broadcast dispatch
    record_broadcast-Rides token u now b v p =
        continue-Trail P id (recordable fold id token u now b) _ b λ op h.
          elim (Bool-cases (not (str_eq op.tx_bytes_hash ""))) [
            | inl e ↦ rw e (
                continue-Trail P id (staged fold u op) _ b
                  λ next _. settle-Trail token op.status u now next b v p)
            | inr e ↦ rw e (unstaged-Trail token u now op b v p)
          ]

    pub reconcile_batch-Rides :
        (u : BatchReconcileUpdate) (now : ℕ) → P "" → Rides P id (reconcile_batch fold id u now)
    unfolding reconcile_batch conclude put_reconciled settled
    reconcile_batch-Rides u now z b v p =
        continue-Trail P id (reconcilable fold id u b) _ b λ (op, attempt) h.
          let path = settle_inputs-Trail P _ _ now (inputs_of id b) b.base v p z in
          Trail-append path
            (clear_input_leases-Trail P (inputs_of id b) now _ (Trail-IsValid path v) p)
