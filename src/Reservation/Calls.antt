-- ===== src/Reservation/Calls.antt =====
-- memory_store.go: the calls that change a `MemoryStore`, and runs of calls from `NewMemoryStore`. The
-- methods hold the mutex throughout, so any interleaving of clients is such a run.
pub mod Validity
pub mod Spent
pub mod SpentRuns
pub mod Absorbing
use clairveil.Prelude.{ℕ, String, Option, List, [], ◌∷◌}
use clairveil.Reservation.Status.{ReservationStatus}
use clairveil.Reservation.Types.{
  NoteReservation, PayrollOperation, SubmittedReservationRef, SubmittedReservationUpdate,
  BroadcastAttemptUpdate, ProofReadyOperationUpdate,
}
use clairveil.Reservation.Store.{MemoryStore}
use clairveil.Reservation.Transition
use clairveil.Reservation.Lease
use clairveil.Reservation.Create
use clairveil.Reservation.Marks

pub data Call : Type 0 where
  create_reservation : NoteReservation → Call
  create_reservation_batch : List NoteReservation → List PayrollOperation → Call
  compare_and_set : String → ReservationStatus → ReservationStatus → ℕ → Call
  compare_and_set_with_operation :
      String → ReservationStatus → ReservationStatus → Option PayrollOperation → ℕ → Call
  compare_and_set_with_lease : String → String → ReservationStatus → ReservationStatus → ℕ → Call
  acquire_lease : String → String → String → ℕ → ℕ → Call
  acquire_lease_for_status : String → String → String → ReservationStatus → ℕ → ℕ → Call
  heartbeat_lease : String → String → ℕ → ℕ → Call
  heartbeat_lease_for_status : String → String → ReservationStatus → ℕ → ℕ → Call
  clear_lease : String → String → ℕ → Call
  mark_proof_ready : List SubmittedReservationRef → ProofReadyOperationUpdate → ℕ → Call
  mark_reservation_submitted : String → String → SubmittedReservationUpdate → ℕ → Call
  mark_submitted :
      List SubmittedReservationRef → List String → SubmittedReservationUpdate → ℕ → Call
  mark_broadcast_unknown :
      List SubmittedReservationRef → List String → BroadcastAttemptUpdate → ℕ → Call
  update_reservation : NoteReservation → Call
  create_operation : PayrollOperation → Call
  update_operation : PayrollOperation → Call

-- The store after a call, whether it returned an error or not.
unfoldable pub call : Call → MemoryStore → MemoryStore
call (Call.create_reservation r) s = (Create.create_reservation r s).1
call (Call.create_reservation_batch rs os) s = (Create.create_reservation_batch rs os s).1
call (Call.compare_and_set id from to now) s = (Transition.compare_and_set id from to now s).1
call (Call.compare_and_set_with_operation id from to o now) s =
    (Transition.compare_and_set_with_operation id from to o now s).1
call (Call.compare_and_set_with_lease id token from to now) s =
    (Transition.compare_and_set_with_lease id token from to now s).1
call (Call.acquire_lease id owner token until now) s =
    (Lease.acquire_lease id owner token until now s).1
call (Call.acquire_lease_for_status id owner token required until now) s =
    (Lease.acquire_lease_for_status id owner token required until now s).1
call (Call.heartbeat_lease id token until now) s = (Lease.heartbeat_lease id token until now s).1
call (Call.heartbeat_lease_for_status id token required until now) s =
    (Lease.heartbeat_lease_for_status id token required until now s).1
call (Call.clear_lease id token now) s = (Lease.clear_lease id token now s).1
call (Call.mark_proof_ready refs u now) s = (Marks.mark_proof_ready refs u now s).1
call (Call.mark_reservation_submitted id token u now) s =
    (Marks.mark_reservation_submitted id token u now s).1
call (Call.mark_submitted refs ids u now) s = (Marks.mark_submitted refs ids u now s).1
call (Call.mark_broadcast_unknown refs ids u now) s =
    (Marks.mark_broadcast_unknown refs ids u now s).1
call (Call.update_reservation r) s = (Transition.update_reservation r s).1
call (Call.create_operation o) s = (Create.create_operation o s).1
call (Call.update_operation o) s = (Transition.update_operation o s).1

unfoldable pub run : List Call → MemoryStore → MemoryStore
run [] s = s
run (c ∷ cs) s = run cs (call c s)
