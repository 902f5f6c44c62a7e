-- ===== src/Reservation/Batch/Broadcast.antt =====
-- batch_memory_store.go: `RecordBatchBroadcast`.
use clairveil.Prelude.{ℕ, String, Bool, not, ◌&&◌, ◌||◌, [], ◌∷◌, ◌++◌, str_eq, if◌then◌else◌}
use clairveil.Prelude.Result.{Result, ok, err, guard, ◌>>=◌, ◌>>◌}
use clairveil.Prelude.Exec.{continue}
use clairveil.Reservation.Status.{ReservationStatus, OperationStatus}
use clairveil.Reservation.Types.{Error}
use clairveil.Reservation.Store.{MemoryStore}
use clairveil.Reservation.Evidence.{operation_status_eq}
use clairveil.Reservation.Links.{is_blank, is_nil}
use clairveil.Reservation.Marks.{next_attempt}
use clairveil.Reservation.Batch.Types.{BatchOperation, BatchBroadcastUpdate}
use clairveil.Reservation.Batch.Texts.{equal_normalized}
use clairveil.Reservation.Batch.Store.{BatchStore, Method, require_batch_lease, transition_inputs}
use clairveil.Reservation.Batch.Transition.{finish}

-- The transaction of the update, written into the operation.
unfoldable pub with_tx : BatchBroadcastUpdate → BatchOperation → BatchOperation
with_tx u op = record op {
  signed_tx_bytes_ciphertext = u.signed_tx_bytes_ciphertext;
  tx_bytes_hash = u.tx_bytes_hash;
  sign_doc_hash = u.sign_doc_hash;
  tx_hash = u.tx_hash;
  account_sequence = u.account_sequence;
}

-- The attempt, counted and added to the history.
unfoldable pub attempted : BatchBroadcastUpdate → ℕ → BatchOperation → BatchOperation
attempted u now op = record op {
  broadcast_attempt_count = next_attempt op.broadcast_attempt_count;
  last_broadcast_at = now;
  last_broadcast_error = u.last_broadcast_error;
  broadcast_history =
      op.broadcast_history
      ++ (record {
        signed_tx_bytes_ciphertext = op.signed_tx_bytes_ciphertext;
        tx_bytes_hash = u.tx_bytes_hash;
        sign_doc_hash = u.sign_doc_hash;
        tx_hash = u.tx_hash;
        account_sequence = u.account_sequence;
        broadcast_at = now;
        broadcast_error = u.last_broadcast_error;
        is_unknown = u.is_unknown;
      }
          ∷ []);
  updated_at = now;
}

abbrev pub sent : Bool → OperationStatus
sent unknown = if unknown then OperationStatus.unknown else OperationStatus.submitted

abbrev pub sent_input : Bool → ReservationStatus
sent_input unknown = if unknown then ReservationStatus.unknown else ReservationStatus.submitted

-- The transition of the inputs after the attempt is written, from the status before and the one after.
unfoldable pub follow :
    String → String → OperationStatus → OperationStatus → ℕ → BatchStore → Result Error MemoryStore
unfolding operation_status_eq
follow id token previous next now b =
    if operation_status_eq previous OperationStatus.proof_ready
      && operation_status_eq next OperationStatus.submitted
    then transition_inputs id ReservationStatus.proof_ready ReservationStatus.submitted token now b
    else if operation_status_eq previous OperationStatus.proof_ready
        && operation_status_eq next OperationStatus.unknown
    then transition_inputs id ReservationStatus.proof_ready ReservationStatus.unknown token now b
    else if operation_status_eq previous OperationStatus.submitted
        && operation_status_eq next OperationStatus.unknown
    then transition_inputs id ReservationStatus.submitted ReservationStatus.unknown token now b
    else ok b.base

-- From the attempt to the end; the transition may still fail.
unfoldable pub settle :
    String
    → String
    → OperationStatus
    → BatchBroadcastUpdate
    → ℕ
    → BatchOperation
    → Method BatchOperation
unfolding follow attempted finish
settle id token previous u now op b =
    continue (follow id token previous op.status now b)
      (λ s t. finish id now (attempted u now op) s t) b

-- The first transition of the branch without a hash.
unfoldable pub unstaged_inputs :
    String
    → String
    → BatchBroadcastUpdate
    → ℕ
    → BatchOperation
    → BatchStore
    → Result Error MemoryStore
unfolding operation_status_eq
unstaged_inputs id token u now op b = do
  guard (operation_status_eq op.status OperationStatus.proof_ready) Error.compare_and_set_failed
  transition_inputs id ReservationStatus.proof_ready (sent_input u.is_unknown) token now b

-- The branch without a hash, which moves the inputs at once.
unfoldable pub unstaged :
    String → String → BatchBroadcastUpdate → ℕ → BatchOperation → Method BatchOperation
unfolding with_tx settle unstaged_inputs
unstaged id token u now op b =
    continue (unstaged_inputs id token u now op b)
      (λ s t.
        settle id token op.status u now (record (with_tx u op) { status = sent u.is_unknown })
          (record t { base = s }))
      b

module _ (fold : ℕ → ℕ) where
  -- The checks before the branches.
  unfoldable pub recordable :
      String → String → BatchBroadcastUpdate → ℕ → BatchStore → Result Error BatchOperation
  unfolding equal_normalized
  recordable id token u now b = do
    op ← require_batch_lease id token now b
    guard
        (not (
          is_blank u.tx_bytes_hash
          || is_nil op.signed_tx_bytes_ciphertext
          || not (equal_normalized fold op.tx_bytes_hash u.tx_bytes_hash)
          || not (equal_normalized fold op.tx_hash u.tx_hash)))
        Error.invalid_reservation
    ok op

  -- The branch of staged bytes with a hash: the operation with its transaction and its new status.
  unfoldable pub staged : BatchBroadcastUpdate → BatchOperation → Result Error BatchOperation
  unfolding equal_normalized with_tx operation_status_eq
  staged u op =
      let same = equal_normalized fold op.tx_bytes_hash u.tx_bytes_hash in
      let was_unknown = operation_status_eq op.status OperationStatus.unknown in
      if not same && not was_unknown
      then err Error.invalid_reservation
      else (let with_hash =
            if not same
            then with_tx u op
            else if str_eq op.tx_hash ""
            then record op { tx_hash = u.tx_hash }
            else op in
          ok (record with_hash { status = sent (u.is_unknown || was_unknown) }))

  -- The two branches, and what comes after them.
  unfoldable pub dispatch :
      String → String → BatchBroadcastUpdate → ℕ → BatchOperation → Method BatchOperation
  unfolding staged unstaged settle
  dispatch id token u now op b =
      if not (str_eq op.tx_bytes_hash "")
      then continue (staged u op) (settle id token op.status u now) b
      else unstaged id token u now op b

  -- `RecordBatchBroadcast`.
  unfoldable pub record_broadcast :
      String → String → BatchBroadcastUpdate → ℕ → Method BatchOperation
  unfolding recordable dispatch
  record_broadcast id token u now b =
      continue (recordable id token u now b) (dispatch id token u now) b
