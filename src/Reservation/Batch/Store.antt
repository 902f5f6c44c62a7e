-- ===== src/Reservation/Batch/Store.antt =====
-- batch_memory_store.go: the maps of batch operations beside the rest of a `MemoryStore`, and the
-- helpers that the methods call with the lock held. `sort.Slice` leaves the order of equal indices
-- open; here they keep their order.
use clairveil.Prelude.{
  ℕ, String, not, ◌||◌, Option, none, some, List, [], ◌∷◌, map, str_eq, ltb, if◌then◌else◌,
}
use clairveil.Prelude.Result.{Result, ok, guard, or_fail, ◌>>=◌, ◌>>◌}
use clairveil.Prelude.Exec.{Exec}
use clairveil.Prelude.Int.{ℤ, leb_ℤ}
use clairveil.Prelude.Dict.{Dict, lookup, insert}
use clairveil.Reservation.Status.{ReservationStatus, status_eq, can_transition, is_terminal}
use clairveil.Reservation.Types.{Error, NoteReservation}
use clairveil.Reservation.Store.{MemoryStore, new_store, put_reservation, clear_lease_fields}
use clairveil.Reservation.Links.{is_blank}
use clairveil.Reservation.Transition.{require_lease_token}
use clairveil.Reservation.Create.{put_reservations}
use clairveil.Reservation.Batch.Types.{
  BatchOperation, OperationInputReservation, PayrollItemOutput, ExpectedOutputEvidence,
  BatchOperationGraph,
}

pub record BatchStore : Type 0 where
  pub base : MemoryStore
  pub batch_operations : Dict BatchOperation
  pub batch_inputs : Dict (List OperationInputReservation)
  pub batch_items : Dict (List PayrollItemOutput)
  pub batch_evidence : Dict (List ExpectedOutputEvidence)

abbrev pub new_batch_store : BatchStore
new_batch_store = record {
  base = new_store;
  batch_operations = [];
  batch_inputs = [];
  batch_items = [];
  batch_evidence = [];
}

abbrev pub Method : Type 0 → Type 0
Method A = Exec BatchStore Error A

-- `m[k]` of a map to slices.
unfoldable pub slice_at {ℓ} : {A : Type ℓ} → String → Dict (List A) → List A
slice_at id d = elim (lookup id d) [ none ↦ [] | some xs ↦ xs ]

-- The sorting of `cloneBatchInputs`, `cloneBatchItems` and `cloneBatchEvidence`.
unfoldable pub place {ℓ} : {A : Type ℓ} → (A → ℤ) → A → List A → List A
place index x [] = x ∷ []
place index x (y ∷ ys) =
    let rest = place index x ys in if leb_ℤ (index x) (index y) then x ∷ y ∷ ys else y ∷ rest

unfoldable pub sorted_by {ℓ} : {A : Type ℓ} → (A → ℤ) → List A → List A
unfolding place
sorted_by index [] = []
sorted_by index (x ∷ xs) = place index x (sorted_by index xs)

unfoldable pub sorted_inputs : List OperationInputReservation → List OperationInputReservation
sorted_inputs = sorted_by (λ i. i.input_index)

unfoldable pub sorted_items : List PayrollItemOutput → List PayrollItemOutput
sorted_items = sorted_by (λ i. i.output_index)

unfoldable pub sorted_evidence : List ExpectedOutputEvidence → List ExpectedOutputEvidence
sorted_evidence = sorted_by (λ e. e.output_index)

unfoldable pub find_batch : String → BatchStore → Result Error BatchOperation
find_batch id b = or_fail (lookup id b.batch_operations) Error.operation_not_found

abbrev pub inputs_of : String → BatchStore → List OperationInputReservation
inputs_of id b = slice_at id b.batch_inputs

-- `batchGraphLocked`, of an operation that was found.
unfoldable pub batch_graph : String → BatchOperation → BatchStore → BatchOperationGraph
batch_graph id op b = record {
  operation = op;
  inputs = sorted_inputs (inputs_of id b);
  items = sorted_items (slice_at id b.batch_items);
  evidence = sorted_evidence (slice_at id b.batch_evidence);
}

-- `GetBatchOperation`.
unfoldable pub get_batch_operation : String → Method BatchOperationGraph
unfolding find_batch batch_graph
get_batch_operation id b = (do op ← find_batch id b; ok (batch_graph id op b), b)

-- `s.batchOperations[operationID] = op`, beside reservations that are written.
unfoldable pub put_batch : String → BatchOperation → MemoryStore → BatchStore → BatchStore
put_batch id op base b = record b {
  base = base;
  batch_operations = insert id op b.batch_operations;
}

-- `batchInputReservationsLocked`.
unfoldable pub input_reservations :
    List OperationInputReservation → MemoryStore → Result Error (List NoteReservation)
input_reservations [] s = ok []
input_reservations (i ∷ is) s = do
  r ← or_fail (lookup i.reservation_id s.reservations) Error.reservation_not_found
  rs ← input_reservations is s
  ok (r ∷ rs)

-- The loop of `requireBatchLeaseLocked`.
unfoldable pub require_input_leases :
    List OperationInputReservation → String → ℕ → MemoryStore → Result Error Unit
require_input_leases [] token now s = ok tt
require_input_leases (i ∷ is) token now s = do
  r ← or_fail (lookup i.reservation_id s.reservations) Error.reservation_not_found
  require_lease_token r token now
  require_input_leases is token now s

-- `requireBatchLeaseLocked`.
unfoldable pub require_batch_lease : String → String → ℕ → BatchStore → Result Error BatchOperation
unfolding find_batch require_input_leases
require_batch_lease id token now b = do
  op ← find_batch id b
  guard (not (is_blank token || not (str_eq op.lease_token token) || not (ltb now op.lease_until)))
      Error.lease_mismatch
  require_input_leases (inputs_of id b) token now b.base
  ok op

unfoldable pub clear_found : Option NoteReservation → ℕ → MemoryStore → MemoryStore
clear_found none now s = s
clear_found (some r) now s = put_reservation (record (clear_lease_fields r) { updated_at = now }) s

-- `clearBatchInputLeasesLocked`.
unfoldable pub clear_input_leases : List OperationInputReservation → ℕ → MemoryStore → MemoryStore
unfolding clear_found
clear_input_leases [] now s = s
clear_input_leases (i ∷ is) now s =
    clear_input_leases is now (clear_found (lookup i.reservation_id s.reservations) now s)

-- `clearBatchOperationLease`.
unfoldable pub clear_operation_lease : BatchOperation → BatchOperation
clear_operation_lease op = record op { lease_owner = ""; lease_token = ""; lease_until = 0 }

-- The first loop of `transitionBatchInputReservationsExactLocked`.
unfoldable pub check_movable :
    ReservationStatus → ReservationStatus → String → ℕ → List NoteReservation → Result Error Unit
check_movable from to token now [] = ok tt
check_movable from to token now (r ∷ rs) = do
  guard (status_eq r.status from) Error.compare_and_set_failed
  require_lease_token r token now
  guard (can_transition from to) Error.invalid_transition
  check_movable from to token now rs

-- What its second loop writes.
unfoldable pub moved_input : ReservationStatus → ℕ → NoteReservation → NoteReservation
moved_input to now r =
    let at = record r { status = to } in
    let cleared = if is_terminal to then clear_lease_fields at else at in
    record cleared { updated_at = now }

-- `transitionBatchInputReservationsExactLocked`: the reservations after it.
unfoldable pub transition_inputs :
    String
    → ReservationStatus
    → ReservationStatus
    → String
    → ℕ
    → BatchStore
    → Result Error MemoryStore
unfolding input_reservations check_movable moved_input
transition_inputs id from to token now b = do
  rs ← input_reservations (inputs_of id b) b.base
  check_movable from to token now rs
  ok (put_reservations (map (moved_input to now) rs) b.base)
