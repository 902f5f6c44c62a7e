-- ===== src/Reservation/Calls/Absorbing.antt =====
-- memory_store.go: runs of calls on a store with a spent reservation.
use clairveil.Prelude.{String, Bool, true, false, ◌≡◌, refl, List, [], ◌∷◌, All}
use clairveil.Reservation.Store.{MemoryStore}
use clairveil.Reservation.Lease.{acquire_lease, acquire_lease_for_status}
use clairveil.Reservation.Create.{create_reservation}
use clairveil.Reservation.Marks.{
  submitted, submitted_operation, broadcast_unknown, broadcast_unknown_operation, mark_submitted,
  mark_broadcast_unknown, mark_reservation_submitted,
}
use clairveil.Reservation.Invariant.{IsValid}
use clairveil.Reservation.Calls.{Call, call, run}
use clairveil.Reservation.Calls.Validity.{call-IsValid}
use clairveil.Reservation.Calls.Spent.{IsSpent}
use clairveil.Reservation.Calls.SpentRuns.{
  compare_and_set-IsSpent, compare_and_set_with_operation-IsSpent,
  compare_and_set_with_lease-IsSpent, acquire_lease_locked-IsSpent, heartbeat_lease-IsSpent,
  heartbeat_lease_for_status-IsSpent, clear_lease-IsSpent, mark_broadcast-IsSpent,
  mark_proof_ready-IsSpent, create_reservation_batch-IsSpent, create_operation-IsSpent,
  update_operation-IsSpent,
}

-- `UpdateReservation` is the one call that writes a whole reservation of the caller's.
abbrev pub overwrites : Call → Bool
overwrites (Call.update_reservation r) = true
overwrites _ = false

pub call-IsSpent :
    (c : Call) (s : MemoryStore) (id : String)
    → IsValid s
    → overwrites c ≡ false
    → IsSpent s id
    → IsSpent (call c s) id
unfolding call acquire_lease acquire_lease_for_status create_reservation mark_submitted
    mark_broadcast_unknown mark_reservation_submitted submitted broadcast_unknown
call-IsSpent (Call.create_reservation r) s id v n p =
    create_reservation_batch-IsSpent s id v p (r ∷ []) []
call-IsSpent (Call.create_reservation_batch rs os) s id v n p =
    create_reservation_batch-IsSpent s id v p rs os
call-IsSpent (Call.compare_and_set j from to now) s id v n p =
    compare_and_set-IsSpent s id v p j from to now
call-IsSpent (Call.compare_and_set_with_operation j from to o now) s id v n p =
    compare_and_set_with_operation-IsSpent s id v p j from to o now
call-IsSpent (Call.compare_and_set_with_lease j token from to now) s id v n p =
    compare_and_set_with_lease-IsSpent s id v p j token from to now
call-IsSpent (Call.acquire_lease j owner token until now) s id v n p =
    acquire_lease_locked-IsSpent s id v p j owner token _ until now
call-IsSpent (Call.acquire_lease_for_status j owner token required until now) s id v n p =
    acquire_lease_locked-IsSpent s id v p j owner token required until now
call-IsSpent (Call.heartbeat_lease j token until now) s id v n p =
    heartbeat_lease-IsSpent s id v p j token until now
call-IsSpent (Call.heartbeat_lease_for_status j token required until now) s id v n p =
    heartbeat_lease_for_status-IsSpent s id v p j token required until now
call-IsSpent (Call.clear_lease j token now) s id v n p = clear_lease-IsSpent s id v p j token now
call-IsSpent (Call.mark_proof_ready refs u now) s id v n p =
    mark_proof_ready-IsSpent s id v p refs u now
call-IsSpent (Call.mark_reservation_submitted j token u now) s id v n p =
    mark_broadcast-IsSpent s id v p (submitted u now) (submitted_operation u now) _
      (record { reservation_id = j; lease_token = token } ∷ []) [] now (λ r. refl)
call-IsSpent (Call.mark_submitted refs ids u now) s id v n p =
    mark_broadcast-IsSpent s id v p (submitted u now) (submitted_operation u now) _ refs ids now
      (λ r. refl)
call-IsSpent (Call.mark_broadcast_unknown refs ids u now) s id v n p =
    mark_broadcast-IsSpent s id v p (broadcast_unknown u now) (broadcast_unknown_operation u now) _
      refs ids now (λ r. refl)
call-IsSpent (Call.update_reservation r) s id v n p = absurd (cc)
call-IsSpent (Call.create_operation o) s id v n p = create_operation-IsSpent s id v p o
call-IsSpent (Call.update_operation o) s id v n p = update_operation-IsSpent s id v p o

-- From a valid store, a reservation that is `ConfirmedSpent` is still stored under its id, and still
-- `ConfirmedSpent`, after any calls among which there is no `UpdateReservation`.
pub run-IsSpent :
    (cs : List Call) (s : MemoryStore) (id : String)
    → IsValid s
    → All (λ c. overwrites c ≡ false) cs
    → IsSpent s id
    → IsSpent (run cs s) id
unfolding run
run-IsSpent [] s id v n p = p
run-IsSpent (c ∷ cs) s id v n p =
    run-IsSpent cs (call c s) id (call-IsValid c s v) n.1 (call-IsSpent c s id v n.0 p)
