-- ===== src/Reservation/Batch/Transition.antt =====
-- batch_memory_store.go: `CompareAndSetBatchOperationStatus`, and how methods end.
use clairveil.Prelude.{ℕ, String, Bool, true, false, not, ◌&&◌, ◌||◌, if◌then◌else◌}
use clairveil.Prelude.Result.{Result, ok, err, guard, ◌>>=◌, ◌>>◌}
use clairveil.Prelude.Exec.{continue}
use clairveil.Reservation.Status.{ReservationStatus, OperationStatus, is_terminal_operation}
use clairveil.Reservation.Types.{Error}
use clairveil.Reservation.Store.{MemoryStore}
use clairveil.Reservation.Evidence.{operation_status_eq}
use clairveil.Reservation.Batch.Types.{BatchOperation}
use clairveil.Reservation.Batch.Store.{
  BatchStore, Method, inputs_of, put_batch, require_batch_lease, transition_inputs,
  clear_input_leases, clear_operation_lease,
}

-- The switch of `transitionBatchInputReservationsLocked`.
unfoldable pub input_statuses :
    OperationStatus → OperationStatus → Result Error (ReservationStatus × ReservationStatus)
unfolding operation_status_eq
input_statuses from to =
    if operation_status_eq from OperationStatus.planned
      && operation_status_eq to OperationStatus.proving
    then ok (ReservationStatus.reserved, ReservationStatus.proving)
    else if operation_status_eq from OperationStatus.proving
        && operation_status_eq to OperationStatus.planned
    then ok (ReservationStatus.proving, ReservationStatus.reserved)
    else err Error.invalid_transition

-- `canCompareAndSetBatchOperation`.
unfoldable pub can_compare_and_set : OperationStatus → OperationStatus → Bool
unfolding operation_status_eq
can_compare_and_set from to =
    (operation_status_eq from OperationStatus.planned
      && operation_status_eq to OperationStatus.proving)
    || (operation_status_eq from OperationStatus.proving
        && operation_status_eq to OperationStatus.planned)

-- The statuses that only a proof or a broadcast gives.
unfoldable pub is_durable : OperationStatus → Bool
is_durable OperationStatus.proof_ready = true
is_durable OperationStatus.submitted = true
is_durable OperationStatus.unknown = true
is_durable _ = false

unfoldable pub gives_up_lease : OperationStatus → Bool
gives_up_lease OperationStatus.planned = true
gives_up_lease OperationStatus.replan_required = true
gives_up_lease OperationStatus.manual_review = true
gives_up_lease to = is_terminal_operation to

-- The checks of `CompareAndSetBatchOperationStatus`, and the reservations after the transition.
unfoldable pub settable :
    String
    → String
    → OperationStatus
    → OperationStatus
    → ℕ
    → BatchStore
    → Result Error (BatchOperation × MemoryStore)
unfolding input_statuses can_compare_and_set is_durable
settable id token from to now b = do
  op ← require_batch_lease id token now b
  guard (operation_status_eq op.status from) Error.compare_and_set_failed
  guard (not (is_durable to)) Error.invalid_transition
  guard (can_compare_and_set from to) Error.invalid_transition
  statuses ← input_statuses from to
  s ← transition_inputs id statuses.0 statuses.1 token now b
  ok (op, s)

-- The end of a method that gives up the lease: the operation as it is stored, and the inputs.
unfoldable pub finish : String → ℕ → BatchOperation → MemoryStore → Method BatchOperation
unfolding clear_operation_lease
finish id now op s b = (
  ok (clear_operation_lease op),
  put_batch id (clear_operation_lease op) (clear_input_leases (inputs_of id b) now s) b,
)

-- The end of a method that keeps the lease.
unfoldable pub keep : String → BatchOperation → MemoryStore → Method BatchOperation
keep id op s b = (ok op, put_batch id op s b)

-- `CompareAndSetBatchOperationStatus`.
unfoldable pub compare_and_set_batch :
    String → String → OperationStatus → OperationStatus → ℕ → Method BatchOperation
unfolding settable finish keep gives_up_lease
compare_and_set_batch id token from to now b =
    continue (settable id token from to now b)
      (λ (op, s) t.
        let after = record op { status = to; updated_at = now } in
        if gives_up_lease to then finish id now after s t else keep id after s t)
      b
