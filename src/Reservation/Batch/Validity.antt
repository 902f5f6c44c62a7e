-- ===== src/Reservation/Batch/Validity.antt =====
-- memory_store.go and batch_memory_store.go: the valid reservations of a store, and the spent ones, under
-- single calls.
use clairveil.Prelude.{
  ℕ, String, Bool, false, ◌&&◌, ◌≡◌, ◌≢◌, refl, List, [], ◌∷◌, All, none, length, str_eq,
}
use clairveil.Prelude.Result.{ok, guard, >>=-then}
use clairveil.Prelude.Exec.{continue-after}
use clairveil.Prelude.Dict.{StringSet, insert, lookup}
use clairveil.Reservation.Status.{ReservationStatus, status_eq}
use clairveil.Reservation.Types.{NoteReservation}
use clairveil.Reservation.Store.{MemoryStore}
use clairveil.Reservation.Create.{validate_reservations, validate_reservation_create}
use clairveil.Reservation.Invariant.{IsValid}
use clairveil.Reservation.Keeps.Creation.{put_validated-IsValid}
use clairveil.Reservation.Calls.{Call, call}
use clairveil.Reservation.Calls.Validity.{call-IsValid}
use clairveil.Reservation.Calls.Spent.{
  IsSpent, put_reservations-IsSpent, validate_reservations-absent,
}
use clairveil.Reservation.Calls.Absorbing.{overwrites, call-IsSpent}
use clairveil.Reservation.Batch.Types.{BatchOperationGraph, OperationInputReservation}
use clairveil.Reservation.Batch.Store.{BatchStore, inputs_of}
use clairveil.Reservation.Batch.Create.{
  check_operation, check_reservations, validate_graph_create, put_graph, create_graph,
  create_batch_operation,
}
use clairveil.Reservation.Batch.Trail.{Trail, Trail-IsValid, Trail-IsSpent}
use clairveil.Reservation.Batch.Trails.{Names}
use clairveil.Reservation.Batch.Rides.{
  acquire_batch_lease-Rides, heartbeat_batch_lease-Rides, release_batch_lease-Rides,
}
use clairveil.Reservation.Batch.Advances.{
  compare_and_set_batch-Rides, prepare_resign-Rides, save_proof-Rides, save_signed_tx-Rides,
}
use clairveil.Reservation.Batch.Ends.{record_broadcast-Rides, reconcile_batch-Rides}
use clairveil.Reservation.Batch.Calls.{BatchCall, batch_call}

-- The checks on the reservations of a graph are those of `CreateReservationBatch`, and more.
check_reservations-validates :
    (id : String) (rs : List NoteReservation) (pending keys : StringSet) (b : BatchStore)
    → check_reservations id rs pending keys b ≡ ok tt
    → validate_reservations rs pending keys b.base ≡ ok tt
unfolding check_reservations validate_reservations
check_reservations-validates id [] pending keys b h = refl
check_reservations-validates id (r ∷ rs) pending keys b h =
    >>=-then (guard (status_eq r.status ReservationStatus.reserved && str_eq r.operation_id id) _) _
      h
      λ _ _ h. >>=-then (validate_reservation_create r pending keys b.base) _ h λ keys' e h.
        rw e (check_reservations-validates id rs (insert r.reservation_id tt pending) keys' b h)

pub validate_graph-validates :
    (rs : List NoteReservation) (graph : BatchOperationGraph) (b : BatchStore)
    → validate_graph_create rs graph b ≡ ok tt
    → validate_reservations rs [] [] b.base ≡ ok tt
unfolding validate_graph_create
validate_graph-validates rs graph b h =
    >>=-then (check_operation graph.operation graph (length rs) b) _ h λ _ _ h.
      >>=-then (check_reservations graph.operation.operation_id rs [] [] b) _ h
        λ _ checked _. check_reservations-validates graph.operation.operation_id rs [] [] b checked

create_batch-IsValid :
    (rs : List NoteReservation) (graph : BatchOperationGraph) (b : BatchStore)
    → IsValid b.base
    → IsValid (create_batch_operation rs graph b).1.base
unfolding create_batch_operation create_graph put_graph
create_batch-IsValid rs graph b v =
    continue-after (λ t. IsValid t.base) (validate_graph_create rs graph b) _ b v
      λ _ h. put_validated-IsValid rs b.base v (validate_graph-validates rs graph b h)

create_batch-IsSpent :
    (rs : List NoteReservation) (graph : BatchOperationGraph) (b : BatchStore) (j : String)
    → IsSpent b.base j
    → IsSpent (create_batch_operation rs graph b).1.base j
unfolding create_batch_operation create_graph put_graph
create_batch-IsSpent rs graph b j spent =
    continue-after (λ t. IsSpent t.base j) (validate_graph_create rs graph b) _ b spent
      λ _ h.
        put_reservations-IsSpent rs b.base j
          (new_ids rs
            (validate_reservations-absent rs [] [] b.base (validate_graph-validates rs graph b h)))
          spent
  where
    new_ids :
        (qs : List NoteReservation)
        → All (λ r. lookup r.reservation_id b.base.reservations ≡ none) qs
        → All (λ r. r.reservation_id ≢ j) qs
    new_ids [] h = tt
    new_ids (q ∷ qs) h = (λ same. absurd (cc (h.0, spent.1, same)), new_ids qs h.1)

pub all_named : (is : List OperationInputReservation) → Names (λ id. Unit {0}) is
all_named [] = tt
all_named (i ∷ is) = (tt, all_named is)

-- The calls that write whole reservations of the caller's.
abbrev pub overwrites_any : BatchCall → Bool
overwrites_any (BatchCall.ordinary c) = overwrites c
overwrites_any _ = false

-- The call is of a method on one batch operation, whose inputs have ids with P.
abbrev pub On : (String → Type 0) → BatchCall → BatchStore → Type 0
On P (BatchCall.ordinary c) b = ⊥
On P (BatchCall.create_batch rs g) b = ⊥
On P (BatchCall.acquire id _ _ _ _) b = Names P (inputs_of id b)
On P (BatchCall.heartbeat id _ _ _) b = Names P (inputs_of id b)
On P (BatchCall.release id _ _) b = Names P (inputs_of id b)
On P (BatchCall.compare_and_set id _ _ _ _) b = Names P (inputs_of id b)
On P (BatchCall.prepare_resign id _ _ _ _) b = Names P (inputs_of id b)
On P (BatchCall.save_proof id _ _ _) b = Names P (inputs_of id b)
On P (BatchCall.save_signed_tx id _ _ _) b = Names P (inputs_of id b)
On P (BatchCall.record_broadcast id _ _ _) b = Names P (inputs_of id b)
On P (BatchCall.reconcile id _ _) b = Names P (inputs_of id b)

module _ (fold : ℕ → ℕ) where
  -- A method on a batch writes along a trail: to its inputs, and perhaps to the empty id.
  pub batch_call-Trail :
      (P : String → Type 0) (c : BatchCall) (b : BatchStore)
      → IsValid b.base
      → On P c b
      → P ""
      → Trail P b.base (batch_call fold c b).base
  unfolding batch_call
  batch_call-Trail P (BatchCall.ordinary c) b v p z = absurd p
  batch_call-Trail P (BatchCall.create_batch rs g) b v p z = absurd p
  batch_call-Trail P (BatchCall.acquire id owner token until now) b v p z =
      acquire_batch_lease-Rides P id owner token until now b v p
  batch_call-Trail P (BatchCall.heartbeat id token until now) b v p z =
      heartbeat_batch_lease-Rides P id token until now b v p
  batch_call-Trail P (BatchCall.release id token now) b v p z =
      release_batch_lease-Rides P id token now b v p
  batch_call-Trail P (BatchCall.compare_and_set id token from to now) b v p z =
      compare_and_set_batch-Rides P id token from to now b v p
  batch_call-Trail P (BatchCall.prepare_resign id token tx code now) b v p z =
      prepare_resign-Rides P id fold token tx code now b v p
  batch_call-Trail P (BatchCall.save_proof id token u now) b v p z =
      save_proof-Rides P id fold token u now b v p
  batch_call-Trail P (BatchCall.save_signed_tx id token u now) b v p z =
      save_signed_tx-Rides P id fold token u now b v p
  batch_call-Trail P (BatchCall.record_broadcast id token u now) b v p z =
      record_broadcast-Rides P id fold token u now b v p
  batch_call-Trail P (BatchCall.reconcile id u now) b v p z =
      reconcile_batch-Rides P id fold u now z b v p

  -- The three kinds of calls.
  batch_call-kinds :
      (Q : MemoryStore → Type 0) (c : BatchCall) (b : BatchStore)
      → IsValid b.base
      → ((o : Call) → c ≡ BatchCall.ordinary o → Q (call o b.base))
      → ((rs : List NoteReservation) (g : BatchOperationGraph)
          → Q (create_batch_operation rs g b).1.base)
      → ((t : MemoryStore) → Trail (λ j. Unit {0}) b.base t → Q t)
      → Q (batch_call fold c b).base
  unfolding batch_call
  batch_call-kinds Q (BatchCall.ordinary c) b v o n p = o c refl
  batch_call-kinds Q (BatchCall.create_batch rs g) b v o n p = n rs g
  batch_call-kinds Q (BatchCall.acquire id owner token until now) b v o n p = p _ (
      batch_call-Trail (λ j. Unit) (BatchCall.acquire id owner token until now) b v
        (all_named (inputs_of id b)) tt)
  batch_call-kinds Q (BatchCall.heartbeat id token until now) b v o n p = p _ (
      batch_call-Trail (λ j. Unit) (BatchCall.heartbeat id token until now) b v
        (all_named (inputs_of id b)) tt)
  batch_call-kinds Q (BatchCall.release id token now) b v o n p = p _ (
      batch_call-Trail (λ j. Unit) (BatchCall.release id token now) b v (all_named (inputs_of id b))
        tt)
  batch_call-kinds Q (BatchCall.compare_and_set id token from to now) b v o n p = p _ (
      batch_call-Trail (λ j. Unit) (BatchCall.compare_and_set id token from to now) b v
        (all_named (inputs_of id b)) tt)
  batch_call-kinds Q (BatchCall.prepare_resign id token tx code now) b v o n p = p _ (
      batch_call-Trail (λ j. Unit) (BatchCall.prepare_resign id token tx code now) b v
        (all_named (inputs_of id b)) tt)
  batch_call-kinds Q (BatchCall.save_proof id token u now) b v o n p = p _ (
      batch_call-Trail (λ j. Unit) (BatchCall.save_proof id token u now) b v
        (all_named (inputs_of id b)) tt)
  batch_call-kinds Q (BatchCall.save_signed_tx id token u now) b v o n p = p _ (
      batch_call-Trail (λ j. Unit) (BatchCall.save_signed_tx id token u now) b v
        (all_named (inputs_of id b)) tt)
  batch_call-kinds Q (BatchCall.record_broadcast id token u now) b v o n p = p _ (
      batch_call-Trail (λ j. Unit) (BatchCall.record_broadcast id token u now) b v
        (all_named (inputs_of id b)) tt)
  batch_call-kinds Q (BatchCall.reconcile id u now) b v o n p = p _ (
      batch_call-Trail (λ j. Unit) (BatchCall.reconcile id u now) b v (all_named (inputs_of id b))
        tt)

  pub batch_call-IsValid :
      (c : BatchCall) (b : BatchStore) → IsValid b.base → IsValid (batch_call fold c b).base
  batch_call-IsValid c b v =
      batch_call-kinds (λ s. IsValid s) c b v (λ o e. call-IsValid o b.base v)
        (λ rs g. create_batch-IsValid rs g b v) (λ t path. Trail-IsValid path v)

  pub batch_call-IsSpent :
      (c : BatchCall) (b : BatchStore) (j : String)
      → IsValid b.base
      → overwrites_any c ≡ false
      → IsSpent b.base j
      → IsSpent (batch_call fold c b).base j
  batch_call-IsSpent c b j v fixed spent =
      batch_call-kinds (λ s. IsSpent s j) c b v
        (λ o e. call-IsSpent o b.base j v (rw e at fixed) spent)
        (λ rs g. create_batch-IsSpent rs g b j spent) (λ t path. Trail-IsSpent j path spent)
