-- ===== src/Reservation/Batch/Create.antt =====
-- batch_memory_store.go: `CreateBatchOperation` and the checks of a whole graph. The maps that only
-- serve to find duplicates are lists of what was seen.
use clairveil.Prelude.{
  ℕ, String, Bool, true, false, not, ◌&&◌, ◌||◌, ◌==◌, leb, List, [], ◌∷◌, map, length, str_eq,
  if◌then◌else◌,
}
use clairveil.Prelude.Result.{Result, ok, guard, ◌>>=◌, ◌>>◌}
use clairveil.Prelude.Exec.{continue}
use clairveil.Prelude.Int.{ℤ, pos, negsuc, leb_ℤ}
use clairveil.Prelude.Dict.{StringSet, contains, insert, set_of}
use clairveil.Reservation.Status.{ReservationStatus, OperationStatus, status_eq}
use clairveil.Reservation.Types.{Error, NoteReservation}
use clairveil.Reservation.Evidence.{operation_status_eq}
use clairveil.Reservation.Links.{is_blank, is_nil}
use clairveil.Reservation.Create.{validate_reservation_create, put_reservations}
use clairveil.Reservation.Batch.Types.{
  schema_version_v1, BatchOutputRole, BatchItemEvidenceStatus, BatchOperation,
  OperationInputReservation, PayrollItemOutput, ExpectedOutputEvidence, BatchOperationGraph,
}
use clairveil.Reservation.Batch.Texts.{
  is_canonical_field_hex, is_valid_role, role_eq, validate_user_evidence,
}
use clairveil.Reservation.Batch.Store.{
  BatchStore, Method, sorted_inputs, sorted_items, sorted_evidence, batch_graph,
}

-- `a == b` on Go's integers.
unfoldable pub eq_ℤ : ℤ → ℤ → Bool
eq_ℤ (pos a) (pos b) = a == b
eq_ℤ (negsuc a) (negsuc b) = a == b
eq_ℤ _ _ = false

unfoldable pub mem_ℤ : ℤ → List ℤ → Bool
unfolding eq_ℤ
mem_ℤ i [] = false
mem_ℤ i (j ∷ js) = eq_ℤ j i || mem_ℤ i js

-- `i >= 0 && i < count`.
unfoldable pub in_range : ℤ → ℤ → Bool
in_range i count = leb_ℤ (pos 0) i && not (leb_ℤ count i)

-- The checks on the operation itself, and on the sizes of its relations.
unfoldable pub check_operation :
    BatchOperation → BatchOperationGraph → ℕ → BatchStore → Result Error Unit
unfolding eq_ℤ
check_operation op graph count b = do
  guard (str_eq op.version schema_version_v1) Error.invalid_reservation
  guard (not (is_blank op.operation_id)) Error.invalid_reservation
  guard (not (contains op.operation_id b.batch_operations)) Error.invalid_reservation
  guard (not (contains op.operation_id b.base.operations)) Error.invalid_reservation
  guard (operation_status_eq op.status OperationStatus.planned) Error.invalid_reservation
  guard (not (is_nil op.prepared_payload_ciphertext || is_blank op.prepared_payload_hash))
      Error.invalid_reservation
  guard (leb 1 count && leb count 16 && eq_ℤ op.input_count (pos count)) Error.invalid_reservation
  guard
      (leb 1 (length graph.items)
        && leb (length graph.items) 32
        && eq_ℤ op.output_count (pos (length graph.items)))
      Error.invalid_reservation
  guard (length graph.inputs == count && length graph.evidence == length graph.items)
      Error.invalid_reservation

-- The loop on the reservations.
unfoldable pub check_reservations :
    String → List NoteReservation → StringSet → StringSet → BatchStore → Result Error Unit
check_reservations id [] pending keys b = ok tt
check_reservations id (r ∷ rs) pending keys b = do
  guard (status_eq r.status ReservationStatus.reserved && str_eq r.operation_id id)
      Error.invalid_reservation
  keys' ← validate_reservation_create r pending keys b.base
  check_reservations id rs (insert r.reservation_id tt pending) keys' b

-- The loop on the input relations.
unfoldable pub check_inputs :
    BatchOperation
    → StringSet
    → List OperationInputReservation
    → List ℤ
    → StringSet
    → Result Error Unit
unfolding in_range mem_ℤ
check_inputs op ids [] indices seen = ok tt
check_inputs op ids (i ∷ is) indices seen = do
  guard
      (str_eq i.version schema_version_v1
        && str_eq i.operation_id op.operation_id
        && in_range i.input_index op.input_count
        && is_canonical_field_hex i.commitment)
      Error.invalid_reservation
  guard (contains i.reservation_id ids) Error.invalid_reservation
  guard (not (mem_ℤ i.input_index indices)) Error.invalid_reservation
  guard (not (contains i.reservation_id seen)) Error.invalid_reservation
  check_inputs op ids is (i.input_index ∷ indices) (insert i.reservation_id tt seen)

-- The loop on the expected evidence.
unfoldable pub check_evidence :
    BatchOperation → List ExpectedOutputEvidence → List ℤ → Result Error Unit
unfolding in_range mem_ℤ
check_evidence op [] indices = ok tt
check_evidence op (e ∷ es) indices = do
  guard
      (str_eq e.version schema_version_v1
        && str_eq e.operation_id op.operation_id
        && in_range e.output_index op.output_count)
      Error.invalid_reservation
  guard
      (not (
        is_blank e.commitment
        || is_blank e.full_disclosure_digest
        || is_blank e.asset_id
        || is_blank e.denom))
      Error.invalid_reservation
  validate_user_evidence e
  guard (not (mem_ℤ e.output_index indices)) Error.invalid_reservation
  check_evidence op es (e.output_index ∷ indices)

-- `evidenceByIndex[index]` and the comparison of the roles.
unfoldable pub has_role : ℤ → BatchOutputRole → List ExpectedOutputEvidence → Bool
unfolding eq_ℤ role_eq
has_role index role [] = false
has_role index role (e ∷ es) =
    let rest = has_role index role es in
    if eq_ℤ e.output_index index then role_eq e.role role else rest

unfoldable pub is_pending : BatchItemEvidenceStatus → Bool
is_pending BatchItemEvidenceStatus.pending = true
is_pending _ = false

unfoldable pub is_payment : BatchOutputRole → Bool
is_payment BatchOutputRole.payment = true
is_payment _ = false

-- The loop on the payroll items.
unfoldable pub check_items :
    BatchOperation
    → List ExpectedOutputEvidence
    → List PayrollItemOutput
    → List ℤ
    → Result Error Unit
unfolding in_range mem_ℤ has_role is_pending is_payment
check_items op es [] indices = ok tt
check_items op es (i ∷ is) indices = do
  guard
      (str_eq i.version schema_version_v1
        && str_eq i.operation_id op.operation_id
        && in_range i.output_index op.output_count)
      Error.invalid_reservation
  guard (is_pending i.evidence_status) Error.invalid_reservation
  guard (is_valid_role i.role) Error.invalid_reservation
  guard (not (is_payment i.role && is_blank i.item_id)) Error.invalid_reservation
  guard (not (not (is_payment i.role) && not (is_blank i.item_id))) Error.invalid_reservation
  guard (not (mem_ℤ i.output_index indices)) Error.invalid_reservation
  guard (has_role i.output_index i.role es) Error.invalid_reservation
  check_items op es is (i.output_index ∷ indices)

-- `validateBatchGraphCreateLocked`.
unfoldable pub validate_graph_create :
    List NoteReservation → BatchOperationGraph → BatchStore → Result Error Unit
unfolding check_operation check_reservations check_inputs check_evidence check_items
validate_graph_create rs graph b = do
  check_operation graph.operation graph (length rs) b
  check_reservations graph.operation.operation_id rs [] [] b
  check_inputs graph.operation (set_of (map (λ (r : NoteReservation). r.reservation_id) rs))
      graph.inputs [] []
  check_evidence graph.operation graph.evidence []
  check_items graph.operation graph.evidence graph.items []

-- The writes of `CreateBatchOperation`.
unfoldable pub put_graph : List NoteReservation → BatchOperationGraph → BatchStore → BatchStore
put_graph rs graph b =
    let id = graph.operation.operation_id in
    record {
      base = put_reservations rs b.base;
      batch_operations = insert id graph.operation b.batch_operations;
      batch_inputs = insert id (sorted_inputs graph.inputs) b.batch_inputs;
      batch_items = insert id (sorted_items graph.items) b.batch_items;
      batch_evidence = insert id (sorted_evidence graph.evidence) b.batch_evidence;
    }

unfoldable pub create_graph :
    List NoteReservation → BatchOperationGraph → Method BatchOperationGraph
unfolding put_graph
create_graph rs graph b =
    let after = put_graph rs graph b in
    (ok (batch_graph graph.operation.operation_id graph.operation after), after)

-- `CreateBatchOperation`.
unfoldable pub create_batch_operation :
    List NoteReservation → BatchOperationGraph → Method BatchOperationGraph
unfolding validate_graph_create create_graph
create_batch_operation rs graph b =
    continue (validate_graph_create rs graph b) (λ _. create_graph rs graph) b
