-- ===== src/Reservation/Batch/Submission.antt =====
-- batch_memory_store.go: what `RecordBatchBroadcast` makes of a batch, from each of its statuses.
use clairveil.Prelude.{
  ℕ, String, Bool, false, not, ◌&&◌, ◌||◌, ◌≡◌, ◌≢◌, inl, inr, refl, sym, ap, subst, ◌∙◌, none,
  some, arith, Bool-cases, str_eq, str_eq_refl, str_eq_iff,
}
use clairveil.Prelude.Result.{Result, ok, err, After, guard, >>=-then, ok-injective}
use clairveil.Prelude.Exec.{continue}
use clairveil.Prelude.Dict.{lookup, lookup-insert}
use clairveil.Reservation.Status.{OperationStatus}
use clairveil.Reservation.Types.{Error}
use clairveil.Reservation.Store.{MemoryStore}
use clairveil.Reservation.Links.{is_blank, is_nil}
use clairveil.Reservation.Invariant.{IsValid}
use clairveil.Reservation.Evidence.{operation_status_eq}
use clairveil.Reservation.Batch.Types.{BatchOperation, BatchBroadcastUpdate}
use clairveil.Reservation.Batch.Texts.{equal_normalized}
use clairveil.Reservation.Batch.Store.{
  BatchStore, inputs_of, require_batch_lease, put_batch, clear_operation_lease,
}
use clairveil.Reservation.Batch.Transition.{finish}
use clairveil.Reservation.Batch.Broadcast.{
  attempted, sent, follow, settle, recordable, staged, dispatch, record_broadcast,
}
use clairveil.Reservation.Batch.Renewal.{require_batch_lease-eq-ok}
use clairveil.Reservation.Batch.Following.{
  goal, InputsAt, require_batch_lease-stored, by_goal, follow-goal, finish-InputsAt,
  by_goal-InputsAt,
}

module _ (id token : String) (now : ℕ) (b : BatchStore) (v : IsValid b.base) where
  -- The operation has the status of a sent one, and the inputs have followed.
  abbrev pub Follows : OperationStatus → Bool → BatchOperation → BatchStore → Type 0
  Follows previous unknown op c =
      (lookup id c.batch_operations ≡ some op)
      × (op.status ≡ sent unknown)
      × (op.lease_token ≡ "")
      × InputsAt (goal previous unknown) (inputs_of id b) b.base c.base

  settle-Follows :
      (previous : OperationStatus) (unknown : Bool) (u : BatchBroadcastUpdate)
      (next : BatchOperation)
      → next.status ≡ sent unknown
      → InputsAt none (inputs_of id b) b.base b.base
      → let (r, c) = settle id token previous u now next b in
        After r (λ op. Follows previous unknown op c) (λ e. c ≡ b)
  unfolding settle finish put_batch clear_operation_lease attempted
  settle-Follows previous unknown u next st stored =
      go (follow id token previous next.status now b) refl
    where
      go :
          (m : Result Error MemoryStore)
          → follow id token previous next.status now b ≡ m
          → let (r, c) = continue m (λ s t. finish id now (attempted u now next) s t) b in
            After r (λ op. Follows previous unknown op c) (λ e. c ≡ b)
      go (err e) h = refl
      go (ok s) h =
          let h' : by_goal id token now b v previous (goal previous unknown) ≡ ok s =
            sym (follow-goal id token now b v previous unknown) ∙ (rw st at h) in
          let (w, at) =
            by_goal-InputsAt id token now b v previous unknown (goal previous unknown) s refl stored
              h' in
          (
            rw (lookup-insert, str_eq_refl id) refl,
            st,
            refl,
            finish-InputsAt id token now b v (goal previous unknown) (attempted u now next) s
                (inputs_of id b) w at,
          )

  -- What a broadcast of the operation ends with.
  abbrev Recorded :
      BatchBroadcastUpdate → BatchOperation → Result Error BatchOperation × BatchStore → Type 0
  Recorded u op (r, c) =
      After r
        (λ o.
          Follows op.status (u.is_unknown || operation_status_eq op.status OperationStatus.unknown)
            o c)
        (λ e. c ≡ b)

  module _ (fold : ℕ → ℕ) where
    staged-status :
        (u : BatchBroadcastUpdate) (op next : BatchOperation)
        → staged fold u op ≡ ok next
        → next.status ≡ sent (u.is_unknown || operation_status_eq op.status OperationStatus.unknown)
    unfolding staged
    staged-status u op next h =
        elim (Bool-cases (
          not (equal_normalized fold op.tx_bytes_hash u.tx_bytes_hash)
          && not (operation_status_eq op.status OperationStatus.unknown))) [
            | inl e ↦ absurd (cc (rw e at h))
            | inr e ↦ sym (ap (λ o. o.status) (ok-injective (rw e at h)))
          ]

    recordable-parts :
        (u : BatchBroadcastUpdate) (op : BatchOperation)
        → recordable fold id token u now b ≡ ok op
        → require_batch_lease id token now b ≡ ok op
    unfolding recordable
    recordable-parts u op h = >>=-then (require_batch_lease id token now b) _ h λ o had h.
        >>=-then
          (guard
            (not (
              is_blank u.tx_bytes_hash
              || is_nil o.signed_tx_bytes_ciphertext
              || not (equal_normalized fold o.tx_bytes_hash u.tx_bytes_hash)
              || not (equal_normalized fold o.tx_hash u.tx_hash)))
            _)
          _ h λ _ _ h. had ∙ h

    dispatch-Follows :
        (u : BatchBroadcastUpdate) (op : BatchOperation)
        → op.tx_bytes_hash ≢ ""
        → InputsAt none (inputs_of id b) b.base b.base
        → Recorded u op (dispatch fold id token u now op b)
    unfolding dispatch
    dispatch-Follows u op hashed stored =
        let e : str_eq op.tx_bytes_hash "" ≡ false =
          ground (arith, str_eq_iff op.tx_bytes_hash "") in
        rw e (go (staged fold u op) refl)
      where
        go :
            (m : Result Error BatchOperation)
            → staged fold u op ≡ m
            → Recorded u op (continue m (settle id token op.status u now) b)
        go (err e) h = refl
        go (ok next) h =
            settle-Follows op.status
              (u.is_unknown || operation_status_eq op.status OperationStatus.unknown) u next
              (staged-status u op next h) stored

    -- If a batch in a store with valid reservations has staged bytes with a hash, and
    -- `RecordBatchBroadcast` succeeds, the operation is stored as Unknown, if it was or if the outcome
    -- is unknown, and otherwise as Submitted, and without a lease; its inputs follow it if it was
    -- ProofReady, or if it was Submitted and the outcome is unknown, and in all other cases keep the
    -- statuses that they had. If it fails, nothing has changed.
    pub record_broadcast-Follows :
        (u : BatchBroadcastUpdate) (op : BatchOperation)
        → lookup id b.batch_operations ≡ some op
        → op.tx_bytes_hash ≢ ""
        → let (r, c) = record_broadcast fold id token u now b in
          After r
            (λ o.
              Follows op.status
                (u.is_unknown || operation_status_eq op.status OperationStatus.unknown)
                o
                c)
            (λ e. c ≡ b)
    unfolding record_broadcast
    record_broadcast-Follows u op known hashed = go (recordable fold id token u now b) refl
      where
        go :
            (m : Result Error BatchOperation)
            → recordable fold id token u now b ≡ m
            → Recorded u op (continue m (dispatch fold id token u now) b)
        go (err e) h = refl
        go (ok o) h =
            let had = recordable-parts u o h in
            let same : o ≡ op = cc (require_batch_lease-eq-ok id token now b o had, known) in
            subst (λ x. Recorded u op (dispatch fold id token u now x b)) (sym same)
              (dispatch-Follows u op hashed (require_batch_lease-stored id token now b o had))
