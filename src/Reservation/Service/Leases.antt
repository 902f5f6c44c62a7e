-- ===== src/Reservation/Service/Leases.antt =====
-- lease.go and service.go: the service's leases and marks over a store.
use clairveil.Prelude.{
  ℕ, ◌+◌, String, not, Option, none, some, List, [], ◌∷◌, str_eq, if◌then◌else◌,
}
use clairveil.Prelude.Int.{ℤ, pos_part, is_positive}
use clairveil.Prelude.Result.{Result, ok, err}
use clairveil.Prelude.Exec.{continue}
use clairveil.Reservation.Status.{ReservationStatus, status_eq}
use clairveil.Reservation.Types.{
  Error, NoteReservation, PayrollOperation, Lease, SubmittedReservationRef,
  SubmittedReservationUpdate, BroadcastAttemptUpdate, ProofReadyOperationUpdate,
}
use clairveil.Reservation.Store.{Method}
use clairveil.Reservation.Transition.{find_reservation}
use clairveil.Reservation.Lease.{
  acquire_lease, acquire_lease_for_status, heartbeat_lease, heartbeat_lease_for_status,
}
use clairveil.Reservation.Lease as StoreLease
use clairveil.Reservation.Marks.{
  mark_submitted, mark_broadcast_unknown, mark_proof_ready, first_marked,
}
use clairveil.Reservation.Service.{ServiceMethod, on_store}

abbrev pub lease_of : Result Error NoteReservation → Result Error Lease
lease_of (ok r) =
    ok (record { owner = r.lease_owner; token = r.lease_token; until = r.lease_until })
lease_of (err e) = err e

abbrev pub as_lease : Method NoteReservation → Method Lease
as_lease m s = let (r, t) = m s in (lease_of r, t)

-- `acquireLease` on a store: `token` is `randomToken`'s, none where reading randomness fails.
unfoldable pub acquire_on_store :
    String → String → ReservationStatus → ℤ → Option String → ℕ → Method Lease
acquire_on_store id owner status ttl none now s = (
  if str_eq owner ""
      then err Error.owner_required
      else if not (is_positive ttl)
      then err Error.ttl_not_positive
      else err Error.token_unavailable,
  s,
)
acquire_on_store id owner status ttl (some token) now s =
    if str_eq owner ""
    then (err Error.owner_required, s)
    else if not (is_positive ttl)
    then (err Error.ttl_not_positive, s)
    else if status_eq status ReservationStatus.unset
    then as_lease (acquire_lease id owner token (now + pos_part ttl) now) s
    else as_lease (acquire_lease_for_status id owner token status (now + pos_part ttl) now) s

-- `AcquireLease` and `AcquireLeaseForStatus`.
unfoldable pub acquire_service_lease :
    String → String → ReservationStatus → ℤ → Option String → ℕ → ServiceMethod Lease
unfolding on_store acquire_on_store
acquire_service_lease id owner status ttl token now =
    on_store (acquire_on_store id owner status ttl token now)

-- `HeartbeatLease`.
unfoldable pub heartbeat_service_lease : String → String → ℤ → ℕ → ServiceMethod Lease
unfolding on_store
heartbeat_service_lease id token ttl now = on_store λ s.
    if not (is_positive ttl)
    then (err Error.ttl_not_positive, s)
    else as_lease (heartbeat_lease id token (now + pos_part ttl) now) s

-- `HeartbeatLeaseForStatus`.
unfoldable pub heartbeat_service_lease_for_status :
    String → String → ReservationStatus → ℤ → ℕ → ServiceMethod Lease
unfolding on_store
heartbeat_service_lease_for_status id token status ttl now = on_store λ s.
    if not (is_positive ttl)
    then (err Error.ttl_not_positive, s)
    else as_lease (heartbeat_lease_for_status id token status (now + pos_part ttl) now) s

-- `ClearLease`.
unfoldable pub clear_service_lease : String → String → ℕ → ServiceMethod NoteReservation
unfolding on_store
clear_service_lease id token now = on_store (StoreLease.clear_lease id token now)

abbrev operation_ids : NoteReservation → List String
operation_ids r = if str_eq r.operation_id "" then [] else r.operation_id ∷ []

-- `MarkSubmitted`.
unfoldable pub mark_service_submitted :
    String → String → SubmittedReservationUpdate → ℕ → ServiceMethod NoteReservation
unfolding on_store
mark_service_submitted id token update now = on_store λ s.
    continue (find_reservation id s)
      (λ r t.
        let (marked, t') =
          mark_submitted (record { reservation_id = id; lease_token = token } ∷ [])
            (operation_ids r) update now t in
        (first_marked marked, t'))
      s

-- `MarkSubmittedBatch`, `MarkBroadcastUnknownBatch` and `MarkProofReadyBatch`.
unfoldable pub mark_submitted_batch :
    List SubmittedReservationRef
    → List String
    → SubmittedReservationUpdate
    → ℕ
    → ServiceMethod (List NoteReservation × List PayrollOperation)
unfolding on_store
mark_submitted_batch refs ids update now = on_store (mark_submitted refs ids update now)

unfoldable pub mark_broadcast_unknown_batch :
    List SubmittedReservationRef
    → List String
    → BroadcastAttemptUpdate
    → ℕ
    → ServiceMethod (List NoteReservation × List PayrollOperation)
unfolding on_store
mark_broadcast_unknown_batch refs ids update now =
    on_store (mark_broadcast_unknown refs ids update now)

unfoldable pub mark_proof_ready_batch :
    List SubmittedReservationRef
    → ProofReadyOperationUpdate
    → ℕ
    → ServiceMethod (List NoteReservation × Option PayrollOperation)
unfolding on_store
mark_proof_ready_batch refs update now = on_store (mark_proof_ready refs update now)
