-- ===== src/Reservation/Calls/Validity.antt =====
-- memory_store.go: whatever is called, and in whatever order, no key has two active reservations.
use clairveil.Prelude.{String, true, ◌≡◌, List, [], ◌∷◌, Bool-cases, inl, inr}
use clairveil.Prelude.Result.{Result, ok, err}
use clairveil.Prelude.Exec.{continue}
use clairveil.Prelude.Dict.{contains}
use clairveil.Reservation.Status.{is_active}
use clairveil.Reservation.Types.{Error, NoteReservation, PayrollOperation, active_key}
use clairveil.Reservation.Store.{MemoryStore, new_store, put_operation}
use clairveil.Reservation.Transition.{update_operation}
use clairveil.Reservation.Lease.{acquire_lease, acquire_lease_for_status}
use clairveil.Reservation.Create.{create_operation, validate_operation_create}
use clairveil.Reservation.Marks.{mark_reservation_submitted}
use clairveil.Reservation.Invariant.{
  IsValid, Holds, IsValid-unique, new_store-IsValid, put_operation-IsValid,
}
use clairveil.Reservation.Keeps.{
  Keeps, compare_and_set-IsValid, compare_and_set_with_lease-IsValid,
  compare_and_set_with_operation-IsValid, update_reservation-IsValid,
}
use clairveil.Reservation.Keeps.Leases.{
  acquire_lease_locked-IsValid, heartbeat_lease-IsValid, heartbeat_lease_for_status-IsValid,
  clear_lease-IsValid,
}
use clairveil.Reservation.Keeps.Batches.{
  mark_submitted-IsValid, mark_broadcast_unknown-IsValid, mark_proof_ready-IsValid,
}
use clairveil.Reservation.Keeps.Creation.{
  create_reservation-IsValid, create_reservation_batch-IsValid,
}
use clairveil.Reservation.Calls.{Call, call, run}

create_operation-IsValid : (o : PayrollOperation) → Keeps (create_operation o)
unfolding create_operation
create_operation-IsValid o s v = go (validate_operation_create o [] s)
  where
    go : (m : Result Error Unit) → IsValid (continue m (λ _ t. (ok o, put_operation o t)) s).1
    go (ok tt) = put_operation-IsValid o s v
    go (err e) = v

update_operation-IsValid : (o : PayrollOperation) → Keeps (update_operation o)
unfolding update_operation
update_operation-IsValid o s v = elim (Bool-cases (contains o.operation_id s.operations)) [
  | inl known ↦ rw known (put_operation-IsValid o s v)
  | inr missing ↦ rw missing v
]

-- Every call, failing or not, keeps the index exact.
pub call-IsValid : (c : Call) (s : MemoryStore) → IsValid s → IsValid (call c s)
unfolding call acquire_lease acquire_lease_for_status mark_reservation_submitted
call-IsValid (Call.create_reservation r) s v = create_reservation-IsValid r s v
call-IsValid (Call.create_reservation_batch rs os) s v = create_reservation_batch-IsValid rs os s v
call-IsValid (Call.compare_and_set id from to now) s v = compare_and_set-IsValid id from to now s v
call-IsValid (Call.compare_and_set_with_operation id from to o now) s v =
    compare_and_set_with_operation-IsValid id from to o now s v
call-IsValid (Call.compare_and_set_with_lease id token from to now) s v =
    compare_and_set_with_lease-IsValid id token from to now s v
call-IsValid (Call.acquire_lease id owner token until now) s v =
    acquire_lease_locked-IsValid id owner token _ until now s v
call-IsValid (Call.acquire_lease_for_status id owner token required until now) s v =
    acquire_lease_locked-IsValid id owner token required until now s v
call-IsValid (Call.heartbeat_lease id token until now) s v =
    heartbeat_lease-IsValid id token until now s v
call-IsValid (Call.heartbeat_lease_for_status id token required until now) s v =
    heartbeat_lease_for_status-IsValid id token required until now s v
call-IsValid (Call.clear_lease id token now) s v = clear_lease-IsValid id token now s v
call-IsValid (Call.mark_proof_ready refs u now) s v = mark_proof_ready-IsValid refs u now s v
call-IsValid (Call.mark_reservation_submitted id token u now) s v =
    mark_submitted-IsValid (record { reservation_id = id; lease_token = token } ∷ []) [] u now s v
call-IsValid (Call.mark_submitted refs ids u now) s v = mark_submitted-IsValid refs ids u now s v
call-IsValid (Call.mark_broadcast_unknown refs ids u now) s v =
    mark_broadcast_unknown-IsValid refs ids u now s v
call-IsValid (Call.update_reservation r) s v = update_reservation-IsValid r s v
call-IsValid (Call.create_operation o) s v = create_operation-IsValid o s v
call-IsValid (Call.update_operation o) s v = update_operation-IsValid o s v

pub run-IsValid : (cs : List Call) (s : MemoryStore) → IsValid s → IsValid (run cs s)
unfolding run
run-IsValid [] s v = v
run-IsValid (c ∷ cs) s v = run-IsValid cs (call c s) (call-IsValid c s v)

-- After any calls on a new store, two active reservations with the same owner key and nullifier key
-- are stored under the same id: a note is never reserved twice.
pub run_unique :
    (cs : List Call) (i j : String) (a b : NoteReservation)
    → Holds (run cs new_store) i a
    → Holds (run cs new_store) j b
    → is_active a.status ≡ true
    → is_active b.status ≡ true
    → active_key a ≡ active_key b
    → i ≡ j
run_unique cs i j a b =
    IsValid-unique (run cs new_store) i j a b (run-IsValid cs new_store new_store-IsValid)
