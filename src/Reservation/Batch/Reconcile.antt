-- ===== src/Reservation/Batch/Reconcile.antt =====
-- batch_memory_store.go: `ReconcileBatchOperation`.
use Prim.Native.String.{◌++◌}
use clairveil.Prelude.{
  ℕ, String, Bool, not, ◌&&◌, ◌||◌, Option, none, some, List, [], ◌∷◌, map, length, str_eq,
  if◌then◌else◌,
}
use clairveil.Prelude.Result.{Result, ok, guard, or_fail, ◌>>=◌, ◌>>◌}
use clairveil.Prelude.Exec.{continue}
use clairveil.Prelude.Int.{ℤ}
use clairveil.Prelude.Dict.{StringSet, set_of, contains, insert}
use clairveil.Reservation.Status.{OperationStatus}
use clairveil.Reservation.Types.{Error}
use clairveil.Reservation.Store.{MemoryStore}
use clairveil.Reservation.Links.{is_blank, is_nil}
use clairveil.Reservation.Batch.Types.{
  BatchOperation, BatchBroadcastAttempt, OperationInputReservation, ObservedOutputEvidence,
  BatchReconcileUpdate, BatchOperationGraph,
}
use clairveil.Reservation.Batch.Texts.{equal_normalized, trim_text}
use clairveil.Reservation.Batch.Create.{mem_ℤ, in_range}
use clairveil.Reservation.Batch.Store.{
  BatchStore, Method, slice_at, inputs_of, sorted_items, sorted_evidence, find_batch, batch_graph,
  clear_input_leases, clear_operation_lease,
}
use clairveil.Reservation.Batch.Settle.{
  conflict_reason, proven_status, is_conflict, target_status, settle_inputs,
}
use clairveil.Reservation.Batch.Items.{judge_all}

-- The set of spent ids: each is an input's, and none comes twice.
unfoldable pub check_spent : StringSet → List String → StringSet → Result Error Unit
check_spent inputs [] seen = ok tt
check_spent inputs (id ∷ ids) seen = do
  guard (contains id inputs) Error.invalid_reservation
  guard (not (contains id seen)) Error.invalid_reservation
  check_spent inputs ids (insert id tt seen)

unfoldable pub check_observed : ℤ → List ObservedOutputEvidence → List ℤ → Result Error Unit
check_observed count [] seen = ok tt
check_observed count (o ∷ os) seen = do
  guard (in_range o.output_index count) Error.invalid_reservation
  guard (not (mem_ℤ o.output_index seen)) Error.invalid_reservation
  check_observed count os (o.output_index ∷ seen)

module _ (fold : ℕ → ℕ) where
  -- The attempt of the history with the given transaction.
  unfoldable pub attempt_of : String → List BatchBroadcastAttempt → Option BatchBroadcastAttempt
  unfolding equal_normalized
  attempt_of tx_hash [] = none
  attempt_of tx_hash (a ∷ later) =
      let rest = attempt_of tx_hash later in
      if equal_normalized fold a.tx_hash tx_hash then some a else rest

  -- The historical_attempt attempt that the update names, if it names one.
  unfoldable pub historical_attempt :
      BatchOperation → BatchReconcileUpdate → Result Error (Option BatchBroadcastAttempt)
  unfolding attempt_of equal_normalized
  historical_attempt op u =
      if not (str_eq op.tx_hash "")
        && not (str_eq u.tx_hash "")
        && not (equal_normalized fold op.tx_hash u.tx_hash)
      then (do
        a ← or_fail (attempt_of u.tx_hash op.broadcast_history) Error.invalid_reservation
        guard (not (is_nil a.signed_tx_bytes_ciphertext || is_blank a.tx_bytes_hash))
            Error.invalid_reservation
        ok (some a))
      else ok none

  -- All the checks of `ReconcileBatchOperation`.
  unfoldable pub reconcilable :
      String
      → BatchReconcileUpdate
      → BatchStore
      → Result Error (BatchOperation × Option BatchBroadcastAttempt)
  unfolding find_batch historical_attempt check_spent check_observed
  reconcilable id u b = do
    op ← find_batch id b
    attempt ← historical_attempt op u
    guard (not (u.tx_succeeded && u.tx_failed)) Error.invalid_reservation
    check_spent
        (set_of (map (λ (i : OperationInputReservation). i.reservation_id) (inputs_of id b)))
        u.spent_reservation_ids []
    check_observed op.output_count u.observed_outputs []
    ok (op, attempt)

-- The transaction of the operation after it.
unfoldable pub with_hash :
    BatchReconcileUpdate → Option BatchBroadcastAttempt → BatchOperation → BatchOperation
with_hash u none op = record op { tx_hash = if str_eq u.tx_hash "" then op.tx_hash else u.tx_hash }
with_hash u (some a) op = if str_eq u.tx_hash "" then op else record op {
  signed_tx_bytes_ciphertext = a.signed_tx_bytes_ciphertext;
  tx_bytes_hash = a.tx_bytes_hash;
  sign_doc_hash = a.sign_doc_hash;
  account_sequence = a.account_sequence;
  tx_hash = u.tx_hash;
}

unfoldable pub failure_text : Bool → String → String
unfolding trim_text
failure_text conflict reason =
    let trimmed = trim_text reason in
    if not conflict
    then trimmed
    else if str_eq trimmed ""
    then conflict_reason
    else conflict_reason ++ (": " ++ trimmed)

-- What the evidence proves of the operation.
unfoldable pub proven : String → BatchReconcileUpdate → BatchStore → OperationStatus
unfolding proven_status
proven id u b =
    proven_status u.tx_succeeded u.tx_failed (length u.spent_reservation_ids)
      (length (inputs_of id b))

-- The operation that is stored.
unfoldable pub reconciled_batch :
    String
    → BatchReconcileUpdate
    → ℕ
    → BatchOperation
    → Option BatchBroadcastAttempt
    → BatchStore
    → BatchOperation
unfolding target_status is_conflict failure_text with_hash clear_operation_lease proven
reconciled_batch id u now op attempt b = clear_operation_lease (record (with_hash u attempt op) {
  status = target_status op.status (proven id u b) (length u.spent_reservation_ids);
  last_broadcast_error = failure_text (is_conflict op.status (proven id u b)) u.failure_reason;
  updated_at = now;
})

-- The reservations after it.
unfoldable pub settled :
    String → BatchReconcileUpdate → ℕ → BatchOperation → BatchStore → MemoryStore
unfolding settle_inputs is_conflict proven
settled id u now op b = clear_input_leases (inputs_of id b) now (
    settle_inputs (set_of u.spent_reservation_ids)
      (not (is_conflict op.status (proven id u b)) && u.tx_failed) now (inputs_of id b) b.base)

module _ (fold : ℕ → ℕ) where
  -- The writes of `ReconcileBatchOperation`.
  unfoldable pub put_reconciled :
      String
      → BatchReconcileUpdate
      → ℕ
      → BatchOperation
      → Option BatchBroadcastAttempt
      → BatchStore
      → BatchStore
  unfolding settled reconciled_batch judge_all is_conflict proven
  put_reconciled id u now op attempt b =
      let (items, evidence) =
        judge_all fold (is_conflict op.status (proven id u b)) u now
          (sorted_items (slice_at id b.batch_items))
          (sorted_evidence (slice_at id b.batch_evidence)) in
      record b {
        base = settled id u now op b;
        batch_operations = insert id (reconciled_batch id u now op attempt b) b.batch_operations;
        batch_items = insert id (sorted_items items) b.batch_items;
        batch_evidence = insert id (sorted_evidence evidence) b.batch_evidence;
      }

  -- The writes and the graph that is returned.
  unfoldable pub conclude :
      String
      → BatchReconcileUpdate
      → ℕ
      → BatchOperation × Option BatchBroadcastAttempt
      → Method BatchOperationGraph
  unfolding put_reconciled
  conclude id u now (op, attempt) b =
      let after = put_reconciled id u now op attempt b in
      (ok (batch_graph id (reconciled_batch id u now op attempt b) after), after)

  -- `ReconcileBatchOperation`.
  unfoldable pub reconcile_batch : String → BatchReconcileUpdate → ℕ → Method BatchOperationGraph
  unfolding reconcilable conclude
  reconcile_batch id u now b = continue (reconcilable fold id u b) (conclude id u now) b
