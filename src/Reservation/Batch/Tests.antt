-- ===== src/Reservation/Batch/Tests.antt =====
-- Batch operations on concrete inputs.
use clairveil.Prelude.{String, false, ◌≡◌, inl, refl, some, [], ◌∷◌, All, str_eq_iff, arith}
use clairveil.Prelude.Result.{ok, err, After}
use clairveil.Prelude.Dict.{lookup}
use clairveil.Reservation.Status.{ReservationStatus, OperationStatus, is_active}
use clairveil.Reservation.Types.{Error, NoteReservation, active_key}
use clairveil.Reservation.Store.{new_store}
use clairveil.Reservation.Lease.{acquire_lease}
use clairveil.Reservation.Invariant.{Holds}
use clairveil.Reservation.Calls.{run, call}
use clairveil.Reservation.Calls.Spent.{IsSpent}
use clairveil.Reservation.Tests.{note, spent_note, spent_held, store_with-IsValid}
use clairveil.Tree.Shape
use clairveil.Prelude.Dict
use clairveil.Reservation.Links
use clairveil.Reservation.Evidence
use clairveil.Reservation.Evidence.{operation_status_eq}
use clairveil.Reservation.Status
use clairveil.Reservation.Audit
use clairveil.Reservation.Store
use clairveil.Reservation.Transition
use clairveil.Reservation.Create
use clairveil.Reservation.Batch.Texts
use clairveil.Reservation.Batch.Types.{
  BatchItemEvidenceStatus, BatchOperation, OperationInputReservation,
}
use clairveil.Reservation.Batch.Store.{
  new_batch_store, inputs_of, slice_at, require_batch_lease, transition_inputs, sorted_by,
  sorted_items, sorted_evidence, find_batch, input_reservations,
}
use clairveil.Reservation.Batch.Create.{create_batch_operation, eq_ℤ, in_range, mem_ℤ}
use clairveil.Reservation.Batch.Calls.{BatchCall, batch_call, run_batch}
use clairveil.Reservation.Batch.Lease.{
  acquire_batch_lease, grant, leased_operation, heartbeat_batch_lease, release_batch_lease,
}
use clairveil.Reservation.Batch.Transition.{compare_and_set_batch}
use clairveil.Reservation.Batch.Signing.{prepare_resign, save_proof, save_signed_tx}
use clairveil.Reservation.Batch.Broadcast.{record_broadcast}
use clairveil.Reservation.Batch.Reconcile.{reconcile_batch}
use clairveil.Reservation.Batch.Runs.{run_batch_unique, run_batch-IsSpent, batch_call_spares}
use clairveil.Reservation.Batch.Exclusion.{acquire_batch_excludes}
use clairveil.Reservation.Batch.Expiry.{acquire_batch_lease_again}
use clairveil.Reservation.Batch.Renewal.{IsKept, heartbeat_batch_lease-IsKept}
use clairveil.Reservation.Batch.Moves.{Saved, save_proof-Moves}
use clairveil.Reservation.Batch.Submission.{Follows, record_broadcast-Follows}
use clairveil.Reservation.Batch.Settlement.{Settles, reconcile_batch-Settles}
use clairveil.Reservation.Batch.Creation.{IsCreated, create_batch_operation-IsCreated}
use clairveil.Reservation.Batch.Evidenced.{IsEvidenced}
use clairveil.Reservation.Batch.Accounting.{reconcile_batch-IsEvidenced}
use clairveil.Reservation.Batch.Fences.{IsRefused, batch_lease_fences}
use clairveil.Reservation.Batch.Samples.{
  input_note, planned_operation, item, graph, same, creation, created_store, batch_with, free_batch,
  leased_as, verdict, proving_batch, proving_note, proof, ready_batch, broadcast, signed_tx,
}

created_held : Holds created_store.base "r1" input_note
unfolding run_batch batch_call lookup create_batch_operation Links.is_blank Dict.contains
    Evidence.operation_status_eq Status.status_eq Create.validate_reservation_create is_active
    Texts.is_canonical_field_hex Audit.codes Audit.hex_decode Shape.strict_field Dict.set_of
    Texts.validate_user_evidence Texts.is_valid_role Create.put_reservations Store.put_reservation
created_held = refl

run_batch_unique_example : ◌≡◌ {A = String} "r1" "r1"
unfolding is_active active_key
run_batch_unique_example =
    run_batch_unique same (creation ∷ []) "r1" "r1" input_note input_note created_held created_held
      refl refl refl

create_batch_operation-IsCreated_example :
    let (r, c) = create_batch_operation (input_note ∷ []) graph new_batch_store in
    After r (λ g. IsCreated (input_note ∷ []) graph new_batch_store c g) (λ e. c ≡ new_batch_store)
create_batch_operation-IsCreated_example =
    create_batch_operation-IsCreated (input_note ∷ []) graph new_batch_store

known :
    (op : BatchOperation) (r : NoteReservation)
    → lookup "op" (batch_with op r).batch_operations ≡ some op
unfolding lookup
known op r = refl

run_batch-IsSpent_example :
    IsSpent
      (run_batch same
        (BatchCall.reconcile "op" verdict 9 ∷ [])
        (batch_with planned_operation spent_note)).base
      "r1"
run_batch-IsSpent_example =
    run_batch-IsSpent same (BatchCall.reconcile "op" verdict 9 ∷ [])
      (batch_with planned_operation spent_note) "r1" (store_with-IsValid spent_note) (refl, tt)
      (spent_note, spent_held, refl)

batch_call_spares_example :
    lookup "r2" (batch_call same (BatchCall.reconcile "op" verdict 9) free_batch).base.reservations
    ≡ lookup "r2" free_batch.base.reservations
unfolding slice_at lookup
batch_call_spares_example =
    batch_call_spares same (BatchCall.reconcile "op" verdict 9) free_batch "r2"
      (store_with-IsValid input_note) ((λ e. ground (arith, str_eq_iff "r1" "r2")), tt)
      (λ e. ground (arith, str_eq_iff "r2" ""))

acquired :
    (acquire_batch_lease "op" "w" "token" 20 5 free_batch).0
    ≡ ok (leased_operation "w" "token" 20 5 planned_operation)
unfolding acquire_batch_lease find_batch lookup Links.is_blank Status.is_terminal_operation
    input_reservations slice_at run call Create.create_reservation Create.validate_batch
    Create.validate_reservations Create.validate_reservation_create Dict.contains is_active
    Create.validate_operations Create.put_operations Create.put_reservations Store.put_reservation
    Dict.insert grant leased_operation
acquired = refl

acquire_batch_excludes_example :
    let c = (acquire_batch_lease "op" "w" "token" 20 5 free_batch).1 in
    (acquire_batch_lease "op" "x" "other" 30 9 c ≡ (err Error.lease_unavailable, c))
    × All
        (λ (i : OperationInputReservation).
          acquire_lease i.reservation_id "x" "other" 30 9 c.base
          ≡ (err Error.lease_unavailable, c.base))
        (inputs_of "op" c)
acquire_batch_excludes_example =
    acquire_batch_excludes "op" "w" "token" 20 5 free_batch
      (leased_operation "w" "token" 20 5 planned_operation) "x" "other" 30 9
      (store_with-IsValid input_note) acquired (omega arith)

acquire_batch_lease_again_example :
    (op : BatchOperation) × ((acquire_batch_lease "op" "x" "other" 40 25
        (acquire_batch_lease "op" "w" "token" 20 5 free_batch).1).0
      ≡ ok op)
unfolding Links.is_blank
acquire_batch_lease_again_example =
    acquire_batch_lease_again "op" "w" "token" 20 5 free_batch
      (leased_operation "w" "token" 20 5 planned_operation) "x" "other" 40 25
      (store_with-IsValid input_note) acquired (omega arith) (omega arith) refl refl

proving_held : Holds proving_batch.base "r1" proving_note
unfolding lookup run call Create.create_reservation Create.validate_batch
    Create.validate_reservations Create.validate_reservation_create Dict.contains is_active
    Create.validate_operations Create.put_operations Create.put_reservations Store.put_reservation
    Dict.insert
proving_held = refl

heartbeat_batch_lease-IsKept_example :
    IsKept "op"
      (leased_as OperationStatus.proving)
      "r1"
      proving_note
      (heartbeat_batch_lease "op" "token" 40 9 proving_batch).1
heartbeat_batch_lease-IsKept_example =
    heartbeat_batch_lease-IsKept "op" proving_batch (leased_as OperationStatus.proving) "r1"
      proving_note (store_with-IsValid proving_note)
      (known (leased_as OperationStatus.proving) proving_note) proving_held "token" 40 9

save_proof-Moves_example :
    let (r, c) = save_proof same "op" "token" proof 9 proving_batch in
    After r (λ op. Saved "op" "token" proof 9 proving_batch op c) (λ e. c ≡ proving_batch)
save_proof-Moves_example =
    save_proof-Moves "op" same "token" proof 9 proving_batch (store_with-IsValid proving_note)

record_broadcast-Follows_example :
    let (r, c) = record_broadcast same "op" "token" broadcast 9 ready_batch in
    After r
      (λ o.
        Follows "op" "token" 9 ready_batch
          (store_with-IsValid (note "r1" ReservationStatus.proof_ready "token" 20))
          OperationStatus.proof_ready
          false
          o
          c)
      (λ e. c ≡ ready_batch)
unfolding operation_status_eq
record_broadcast-Follows_example =
    record_broadcast-Follows "op" "token" 9 ready_batch
      (store_with-IsValid (note "r1" ReservationStatus.proof_ready "token" 20)) same broadcast
      (leased_as OperationStatus.proof_ready)
      (known (leased_as OperationStatus.proof_ready)
        (note "r1" ReservationStatus.proof_ready "token" 20))
      (λ e. ground (arith, str_eq_iff "bytes" ""))

reconcile_batch-Settles_example :
    let (r, c) = reconcile_batch same "op" verdict 9 ready_batch in
    After r
      (λ g.
        (op : BatchOperation) × Settles "op" verdict 9 ready_batch
          (store_with-IsValid (note "r1" ReservationStatus.proof_ready "token" 20))
          op
          g
          c)
      (λ e. c ≡ ready_batch)
reconcile_batch-Settles_example =
    reconcile_batch-Settles "op" verdict 9 ready_batch
      (store_with-IsValid (note "r1" ReservationStatus.proof_ready "token" 20)) same

batch_lease_fences_example :
    IsRefused proving_batch (heartbeat_batch_lease "op" "other" 40 9)
    × IsRefused proving_batch (release_batch_lease "op" "other" 9)
    × IsRefused proving_batch
        (compare_and_set_batch "op" "other" OperationStatus.proving OperationStatus.planned 9)
    × IsRefused proving_batch (prepare_resign same "op" "other" "tx" 5 9)
    × IsRefused proving_batch (save_proof same "op" "other" proof 9)
    × IsRefused proving_batch (save_signed_tx same "op" "other" signed_tx 9)
    × IsRefused proving_batch (record_broadcast same "op" "other" broadcast 9)
batch_lease_fences_example =
    batch_lease_fences same "op" "other" 9 proving_batch (leased_as OperationStatus.proving) 40 5
      OperationStatus.proving OperationStatus.planned "tx" proof signed_tx broadcast
      (known (leased_as OperationStatus.proving) proving_note)
      (inl (λ e. ground (arith, str_eq_iff "token" "other")))

reconcile_batch-IsEvidenced_example :
    let (r, c) = reconcile_batch same "op" verdict 9 ready_batch in
    After r
      (λ g.
        All
          (IsEvidenced same verdict
            (sorted_items (slice_at "op" ready_batch.batch_items))
            (sorted_evidence (slice_at "op" ready_batch.batch_evidence)))
          (slice_at "op" c.batch_items))
      (λ e. c ≡ ready_batch)
unfolding slice_at lookup eq_ℤ
reconcile_batch-IsEvidenced_example =
    reconcile_batch-IsEvidenced same "op" verdict 9 ready_batch (inl refl, tt)

-- The verdict is accepted: the item is paid, and the batch has succeeded.
paid :
    (reconcile_batch same "op" verdict 9 ready_batch).1.batch_items
    ≡ (
      "op",
      record item { evidence_status = BatchItemEvidenceStatus.succeeded; updated_at = 9 } ∷ [],
    )
      ∷ []
unfolding reconcile_batch lookup Dict.contains Dict.set_of slice_at in_range mem_ℤ sorted_items
    sorted_by Status.is_terminal_operation sorted_evidence
paid = refl

-- The proof is accepted, and so is the broadcast.
saved :
    After
      (save_proof same "op" "token" proof 9 proving_batch).0
      (λ op. op.status ≡ OperationStatus.proof_ready)
      (λ e. ⊥)
unfolding save_proof require_batch_lease lookup Links.is_blank slice_at run call
    Create.create_reservation Create.validate_batch Create.validate_reservations
    Create.validate_reservation_create Dict.contains is_active Create.validate_operations
    Create.put_operations Create.put_reservations Store.put_reservation Dict.insert
    Transition.require_lease_token transition_inputs operation_status_eq Status.status_eq
    Status.can_transition
saved = refl

recorded :
    After
      (record_broadcast same "op" "token" broadcast 9 ready_batch).0
      (λ op. op.status ≡ OperationStatus.submitted)
      (λ e. ⊥)
unfolding record_broadcast require_batch_lease lookup Links.is_blank slice_at run call
    Create.create_reservation Create.validate_batch Create.validate_reservations
    Create.validate_reservation_create Dict.contains is_active Create.validate_operations
    Create.put_operations Create.put_reservations Store.put_reservation Dict.insert
    Transition.require_lease_token transition_inputs operation_status_eq Status.status_eq
    Status.can_transition Texts.equal_normalized Audit.codes
recorded = refl
