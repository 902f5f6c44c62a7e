-- ===== src/Reservation/Batch/Advances.antt =====
-- batch_memory_store.go: the writes to reservations of the methods from `Planned` to a signed transaction,
-- as trails.
use clairveil.Prelude.{
  ℕ, String, Bool, true, false, not, ◌||◌, ◌==◌, ◌≡◌, inl, inr, refl, subst, arith, Bool-cases,
  if◌then◌else◌,
}
use clairveil.Prelude.Result.{ok, guard, >>=-then, ok-injective}
use clairveil.Reservation.Status.{ReservationStatus, OperationStatus, is_active}
use clairveil.Reservation.Store.{MemoryStore}
use clairveil.Reservation.Evidence.{operation_status_eq}
use clairveil.Reservation.Invariant.{IsValid}
use clairveil.Reservation.Links.{is_blank, is_nil}
use clairveil.Reservation.Batch.Types.{
  BatchOperation, BatchProofArtifactUpdate, BatchSignedTxUpdate,
}
use clairveil.Reservation.Batch.Texts.{equal_normalized}
use clairveil.Reservation.Batch.Store.{
  BatchStore, inputs_of, put_batch, require_batch_lease, transition_inputs,
}
use clairveil.Reservation.Batch.Transition.{
  settable, input_statuses, keep, gives_up_lease, is_durable, can_compare_and_set,
  compare_and_set_batch,
}
use clairveil.Reservation.Batch.Signing.{
  is_broadcast, resignable, prepare_resign, payload_after, provable, save_proof, signable,
  save_signed_tx,
}
use clairveil.Reservation.Batch.Trail.{Trail}
use clairveil.Reservation.Batch.Trails.{Names}
use clairveil.Reservation.Batch.Loops.{transition_inputs-Trail}
use clairveil.Reservation.Batch.Rides.{Rides, continue-Trail, finish-Trail}

input_statuses-active :
    (from to : OperationStatus) (statuses : ReservationStatus × ReservationStatus)
    → input_statuses from to ≡ ok statuses
    → (is_active statuses.0 ≡ true) × (is_active statuses.1 ≡ true)
unfolding input_statuses is_active
input_statuses-active from to statuses h = ground arith

module _ (P : String → Type 0) (id : String) where
  settable-Trail :
      (token : String) (from to : OperationStatus) (now : ℕ) (b : BatchStore) (op : BatchOperation)
      (s : MemoryStore)
      → IsValid b.base
      → Names P (inputs_of id b)
      → settable id token from to now b ≡ ok (op, s)
      → Trail P b.base s
  unfolding settable
  settable-Trail token from to now b op s v p h =
      >>=-then (require_batch_lease id token now b) _ h λ o _ h.
        >>=-then (guard (operation_status_eq o.status from) _) _ h λ _ _ h.
          >>=-then (guard (not (is_durable to)) _) _ h λ _ _ h.
            >>=-then (guard (can_compare_and_set from to) _) _ h λ _ _ h.
              >>=-then (input_statuses from to) _ h λ statuses known h.
                >>=-then (transition_inputs id statuses.0 statuses.1 token now b) _ h λ t moves h.
                  let (a, a') = input_statuses-active from to statuses known in
                  let e : t ≡ s = cc h in
                  subst (λ u. Trail P b.base u) e
                    (transition_inputs-Trail P id statuses.0 statuses.1 token now b t v p a a'
                      moves)

  pub compare_and_set_batch-Rides :
      (token : String) (from to : OperationStatus) (now : ℕ)
      → Rides P id (compare_and_set_batch id token from to now)
  unfolding compare_and_set_batch keep put_batch
  compare_and_set_batch-Rides token from to now b v p =
      continue-Trail P id (settable id token from to now b) _ b λ (op, s) h.
        let path = settable-Trail token from to now b op s v p h in
        elim (Bool-cases (gives_up_lease to)) [
          | inl e ↦
              rw e
                (finish-Trail P id now (record op { status = to; updated_at = now }) s b v p path)
          | inr e ↦ rw e path
        ]

  module _ (fold : ℕ → ℕ) where
    resign_inputs-Trail :
        (token : String) (now : ℕ) (b : BatchStore) (submitted : Bool) (t : MemoryStore)
        → IsValid b.base
        → Names P (inputs_of id b)
        → (if submitted
            then transition_inputs id ReservationStatus.submitted ReservationStatus.unknown token
                now b
            else ok b.base)
          ≡ ok t
        → Trail P b.base t
    unfolding is_active
    resign_inputs-Trail token now b true t v p h =
        transition_inputs-Trail P id _ _ token now b t v p refl refl h
    resign_inputs-Trail token now b false t v p h =
        subst (λ u. Trail P b.base u) (ok-injective h) (Trail.stay b.base)

    resignable-Trail :
        (token failed_tx_hash : String) (failure_code now : ℕ) (b : BatchStore)
        (op : BatchOperation) (s : MemoryStore)
        → IsValid b.base
        → Names P (inputs_of id b)
        → resignable fold id token failed_tx_hash failure_code now b ≡ ok (op, s)
        → Trail P b.base s
    unfolding resignable
    resignable-Trail token failed_tx_hash failure_code now b op s v p h =
        >>=-then (require_batch_lease id token now b) _ h λ o _ h.
          >>=-then
            (guard
              (not (
                failure_code == 0
                || is_blank failed_tx_hash
                || not (equal_normalized fold o.tx_hash failed_tx_hash)))
              _)
            _ h
            λ _ _ h. >>=-then (guard (is_broadcast o.status) _) _ h λ _ _ h.
              >>=-then
                (if operation_status_eq o.status OperationStatus.submitted
                  then transition_inputs id ReservationStatus.submitted ReservationStatus.unknown
                      token now b
                  else ok b.base)
                _ h
                λ t moves h.
                  let e : t ≡ s = cc h in
                  subst (λ u. Trail P b.base u) e (resign_inputs-Trail token now b _ t v p moves)

    pub prepare_resign-Rides :
        (token failed_tx_hash : String) (failure_code now : ℕ)
        → Rides P id (prepare_resign fold id token failed_tx_hash failure_code now)
    unfolding prepare_resign keep put_batch
    prepare_resign-Rides token failed_tx_hash failure_code now b v p =
        continue-Trail P id (resignable fold id token failed_tx_hash failure_code now b) _ b
          λ (op, s) h. resignable-Trail token failed_tx_hash failure_code now b op s v p h

    provable-Trail :
        (token : String) (u : BatchProofArtifactUpdate) (now : ℕ) (b : BatchStore)
        (op : BatchOperation) (s : MemoryStore)
        → IsValid b.base
        → Names P (inputs_of id b)
        → provable fold id token u now b ≡ ok (op, s)
        → Trail P b.base s
    unfolding provable is_active
    provable-Trail token u now b op s v p h =
        >>=-then (require_batch_lease id token now b) _ h λ o _ h.
          >>=-then (guard (operation_status_eq o.status OperationStatus.proving) _) _ h λ _ _ h.
            >>=-then (guard (not (is_nil u.proof_ciphertext || is_blank u.proof_hash)) _) _ h
              λ _ _ h. >>=-then (payload_after fold o u) _ h λ paid _ h.
                >>=-then
                  (transition_inputs id ReservationStatus.proving ReservationStatus.proof_ready
                    token now b)
                  _ h
                  λ t moves h.
                    let e : t ≡ s = cc h in
                    subst (λ w. Trail P b.base w) e
                      (transition_inputs-Trail P id _ _ token now b t v p refl refl moves)

    pub save_proof-Rides :
        (token : String) (u : BatchProofArtifactUpdate) (now : ℕ)
        → Rides P id (save_proof fold id token u now)
    unfolding save_proof
    save_proof-Rides token u now b v p =
        continue-Trail P id (provable fold id token u now b) _ b
          λ (op, s) h. finish-Trail P id now op s b v p (provable-Trail token u now b op s v p h)

    pub save_signed_tx-Rides :
        (token : String) (u : BatchSignedTxUpdate) (now : ℕ)
        → Rides P id (save_signed_tx fold id token u now)
    unfolding save_signed_tx keep put_batch
    save_signed_tx-Rides token u now b v p =
        continue-Trail P id (signable fold id token u now b) _ b λ op h. Trail.stay b.base
