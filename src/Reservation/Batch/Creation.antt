-- ===== src/Reservation/Batch/Creation.antt =====
-- batch_memory_store.go: the graph that `CreateBatchOperation` accepts and stores.
use clairveil.Prelude.{
  ℕ, String, true, not, ◌&&◌, ◌||◌, ◌≡◌, ◌≤◌, refl, ap, none, List, [], ◌∷◌, map, length, All,
  arith, str_eq, str_eq_iff, str_eq_refl, ==_iff, leb,
}
use clairveil.Prelude.Int.{ℤ, pos, negsuc}
use clairveil.Prelude.Result.{Result, ok, err, After, guard, >>=-then}
use clairveil.Prelude.Exec.{continue}
use clairveil.Prelude.Dict.{StringSet, set_of, lookup, contains, insert, lookup-insert}
use clairveil.Reservation.Status.{ReservationStatus, OperationStatus, status_eq}
use clairveil.Reservation.Status.Laws.{status_eq-true}
use clairveil.Reservation.Types.{Error, NoteReservation}
use clairveil.Reservation.Evidence.{operation_status_eq}
use clairveil.Reservation.Evidence.Laws.{operation_status_eq-true}
use clairveil.Reservation.Create.{validate_reservation_create}
use clairveil.Reservation.Links.{is_blank, is_nil}
use clairveil.Reservation.Invariant.{Holds}
use clairveil.Reservation.Batch.Types.{
  schema_version_v1, BatchOperation, BatchOperationGraph, PayrollItemOutput, ExpectedOutputEvidence,
}
use clairveil.Reservation.Batch.Store.{
  BatchStore, batch_graph, get_batch_operation, find_batch, sorted_inputs, sorted_items,
  sorted_evidence,
}
use clairveil.Reservation.Batch.Sorting.{Orders, stored_Orders}
use clairveil.Reservation.Batch.Create.{
  eq_ℤ, check_operation, check_reservations, check_inputs, validate_graph_create, put_graph,
  create_graph, create_batch_operation,
}
use clairveil.Reservation.Batch.Validity.{validate_graph-validates}
use clairveil.Reservation.Create.Effects.{WasFree, validated-stored}
use clairveil.Reservation.Batch.Numbering.{
  Apart, IsInputOf, index_of, input_id, check_inputs-Inputs,
}

check_reservations-linked :
    (id : String) (rs : List NoteReservation) (pending keys : StringSet) (b : BatchStore)
    → check_reservations id rs pending keys b ≡ ok tt
    → All (λ r. (r.status ≡ ReservationStatus.reserved) × (r.operation_id ≡ id)) rs
unfolding check_reservations
check_reservations-linked id [] pending keys b h = tt
check_reservations-linked id (r ∷ rs) pending keys b h =
    >>=-then (guard (status_eq r.status ReservationStatus.reserved && str_eq r.operation_id id) _) _
      h
      λ _ linked h. >>=-then (validate_reservation_create r pending keys b.base) _ h λ keys' e h. (
        (
          status_eq-true r.status ReservationStatus.reserved (ground arith),
          ground (arith, str_eq_iff r.operation_id id),
        ),
        check_reservations-linked id rs (insert r.reservation_id tt pending) keys' b h,
      )

-- What the checks on the operation have established.
abbrev pub IsPlanned : BatchOperation → BatchOperationGraph → ℕ → BatchStore → Type 0
IsPlanned op graph count b =
    (lookup op.operation_id b.batch_operations ≡ none)
    × (op.status ≡ OperationStatus.planned)
    × (length graph.inputs ≡ count)
    × (op.input_count ≡ pos count)
    × (op.output_count ≡ pos (length graph.items))
    × (1 ≤ count)
    × (count ≤ 16)

eq_ℤ-true : (a c : ℤ) → eq_ℤ a c ≡ true → a ≡ c
unfolding eq_ℤ
eq_ℤ-true (pos a) (pos c) h = ap pos ((==_iff a c).0 h)
eq_ℤ-true (pos a) (negsuc c) h = absurd (cc)
eq_ℤ-true (negsuc a) (pos c) h = absurd (cc)
eq_ℤ-true (negsuc a) (negsuc c) h = ap negsuc ((==_iff a c).0 h)

check_operation-IsPlanned :
    (op : BatchOperation) (graph : BatchOperationGraph) (count : ℕ) (b : BatchStore)
    → check_operation op graph count b ≡ ok tt
    → IsPlanned op graph count b
unfolding check_operation contains
check_operation-IsPlanned op graph count b h =
    >>=-then (guard (str_eq op.version schema_version_v1) _) _ h λ _ _ h.
      >>=-then (guard (not (is_blank op.operation_id)) _) _ h λ _ _ h.
        >>=-then (guard (not (contains op.operation_id b.batch_operations)) _) _ h λ _ new h.
          >>=-then (guard (not (contains op.operation_id b.base.operations)) _) _ h λ _ _ h.
            >>=-then (guard (operation_status_eq op.status OperationStatus.planned) _) _ h
              λ _ planned h.
                >>=-then
                  (guard
                    (not
                      (is_nil op.prepared_payload_ciphertext || is_blank op.prepared_payload_hash))
                    _)
                  _ h
                  λ _ _ h.
                    >>=-then
                      (guard (leb 1 count && leb count 16 && eq_ℤ op.input_count (pos count)) _) _ h
                      λ _ inputs h.
                        >>=-then
                          (guard
                            (leb 1 (length graph.items)
                              && leb (length graph.items) 32
                              && eq_ℤ op.output_count (pos (length graph.items)))
                            _)
                          _ h
                          λ _ items h. (
                            ground arith,
                            operation_status_eq-true op.status OperationStatus.planned
                                (ground arith),
                            ground (arith, ==_iff (length graph.inputs) count),
                            eq_ℤ-true op.input_count (pos count) (ground arith),
                            eq_ℤ-true op.output_count (pos (length graph.items)) (ground arith),
                            ground arith,
                            ground arith,
                          )

-- The given graph is stored, its lists in order, and it is complete: there are as many inputs as counted, each with an index and
-- a reservation of its own, and each reservation was free, is Reserved for the batch, and is stored.
pub record IsCreated (rs : List NoteReservation) (graph : BatchOperationGraph) (b c : BatchStore)
    (g : BatchOperationGraph) : Type 0 where
  pub planned : IsPlanned graph.operation graph (length rs) b
  pub returned : get_batch_operation graph.operation.operation_id c ≡ (ok g, c)
  pub operation : g.operation ≡ graph.operation
  pub all_inputs : Orders index_of graph.inputs g.inputs
  pub all_items : Orders (λ (i : PayrollItemOutput). i.output_index) graph.items g.items
  pub all_evidence :
      Orders (λ (e : ExpectedOutputEvidence). e.output_index) graph.evidence g.evidence
  pub inputs :
      All
        (IsInputOf graph.operation (set_of (map (λ (r : NoteReservation). r.reservation_id) rs)))
        graph.inputs
  pub indices_apart : Apart (map index_of graph.inputs)
  pub ids_apart : Apart (map input_id graph.inputs)
  pub reservations :
      All
        (λ r.
          (r.status ≡ ReservationStatus.reserved) × (r.operation_id ≡ graph.operation.operation_id))
        rs
  pub stored : All (λ r. WasFree b.base r × Holds c.base r.reservation_id r) rs

put_graph-IsCreated :
    (rs : List NoteReservation) (graph : BatchOperationGraph) (b : BatchStore)
    → validate_graph_create rs graph b ≡ ok tt
    → let c = put_graph rs graph b in
      IsCreated rs graph b c (batch_graph graph.operation.operation_id graph.operation c)
unfolding validate_graph_create put_graph get_batch_operation find_batch batch_graph sorted_inputs
    sorted_items sorted_evidence
put_graph-IsCreated rs graph b h =
    let valid = validate_graph-validates rs graph b h in
    >>=-then (check_operation graph.operation graph (length rs) b) _ h λ _ op h.
      >>=-then (check_reservations graph.operation.operation_id rs [] [] b) _ h λ _ checked h.
        >>=-then
          (check_inputs graph.operation
            (set_of (map (λ (r : NoteReservation). r.reservation_id) rs)) graph.inputs [] [])
          _ h
          λ _ inputs h.
            let id = graph.operation.operation_id in
            let numbered = check_inputs-Inputs graph.operation _ graph.inputs [] [] inputs in
            record {
              planned = check_operation-IsPlanned graph.operation graph (length rs) b op;
              returned = rw (lookup-insert, str_eq_refl graph.operation.operation_id) refl;
              operation = refl;
              all_inputs = stored_Orders _ id graph.inputs b.batch_inputs;
              all_items = stored_Orders _ id graph.items b.batch_items;
              all_evidence = stored_Orders _ id graph.evidence b.batch_evidence;
              inputs = numbered.of_batch;
              indices_apart = numbered.indices_apart;
              ids_apart = numbered.ids_apart;
              reservations =
                  check_reservations-linked graph.operation.operation_id rs [] [] b checked;
              stored = validated-stored rs b.base valid;
            }

-- If `CreateBatchOperation` succeeds, the operation is new and Planned, and `GetBatchOperation` then returns
-- the same graph as the call: the operation as it was given, and the given inputs, items and evidence, no
-- more and no less, in the order of their indices; there are 1 to 16 inputs, as many as counted, and each has an index in
-- the range and one of the reservations for itself alone; each reservation is Reserved for the batch,
-- its id and active key were free, and it is stored. If the call fails, nothing has changed.
pub create_batch_operation-IsCreated :
    (rs : List NoteReservation) (graph : BatchOperationGraph) (b : BatchStore)
    → let (r, c) = create_batch_operation rs graph b in
      After r (λ g. IsCreated rs graph b c g) (λ e. c ≡ b)
unfolding create_batch_operation create_graph
create_batch_operation-IsCreated rs graph b = go (validate_graph_create rs graph b) refl
  where
    go :
        (m : Result Error Unit)
        → validate_graph_create rs graph b ≡ m
        → let (r, c) = continue m (λ _. create_graph rs graph) b in
          After r (λ g. IsCreated rs graph b c g) (λ e. c ≡ b)
    go (err e) h = refl
    go (ok tt) h = put_graph-IsCreated rs graph b h
