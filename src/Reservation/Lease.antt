-- ===== src/Reservation/Lease.antt =====
-- memory_store.go: the lease methods.
pub mod Exclusion
use clairveil.Prelude.{
  ℕ, String, Bool, true, false, not, ◌&&◌, ◌||◌, Option, none, some, str_eq, ltb,
}
use clairveil.Prelude.Result.{Result, ok, err, guard, ◌>>=◌, ◌>>◌}
use clairveil.Reservation.Status.{ReservationStatus, status_eq, is_active}
use clairveil.Reservation.Types.{Error, NoteReservation}
use clairveil.Reservation.Store.{MemoryStore, Method, commit}
use clairveil.Reservation.Transition.{find_reservation, require_lease_token}

-- What `acquireReservationLeaseLocked` writes.
unfoldable pub leased : String → String → ℕ → ℕ → NoteReservation → NoteReservation
leased owner token until now r = record r {
  lease_owner = owner;
  lease_token = token;
  lease_until = until;
  last_heartbeat_at = now;
  updated_at = now;
}

-- The guards of `acquireReservationLeaseLocked` on the reservation that it found; `unset` is the
-- required status "".
unfoldable pub check_acquire :
    String → String → ReservationStatus → ℕ → ℕ → NoteReservation → Result Error Unit
check_acquire owner token required until now r = do
  guard (status_eq required ReservationStatus.unset || status_eq r.status required)
      Error.compare_and_set_failed
  guard (is_active r.status) Error.lease_unavailable
  guard (not (not (str_eq r.lease_token "") && ltb now r.lease_until)) Error.lease_unavailable
  guard (not (str_eq owner "" || str_eq token "" || not (ltb now until))) Error.lease_unavailable

unfoldable pub acquirable :
    String
    → String
    → String
    → ReservationStatus
    → ℕ
    → ℕ
    → MemoryStore
    → Result Error NoteReservation
unfolding find_reservation
acquirable id owner token required until now s = do
  r ← find_reservation id s
  check_acquire owner token required until now r
  ok r

-- `acquireReservationLeaseLocked`.
unfoldable pub acquire_lease_locked :
    String → String → String → ReservationStatus → ℕ → ℕ → Method NoteReservation
unfolding commit
acquire_lease_locked id owner token required until now s =
    commit (leased owner token until now) (acquirable id owner token required until now s) s

-- `AcquireReservationLease`.
unfoldable pub acquire_lease : String → String → String → ℕ → ℕ → Method NoteReservation
unfolding acquire_lease_locked
acquire_lease id owner token until now =
    acquire_lease_locked id owner token ReservationStatus.unset until now

-- `AcquireReservationLeaseForStatus`.
unfoldable pub acquire_lease_for_status :
    String → String → String → ReservationStatus → ℕ → ℕ → Method NoteReservation
unfolding acquire_lease_locked
acquire_lease_for_status id owner token required until now =
    acquire_lease_locked id owner token required until now

-- What a heartbeat writes.
unfoldable pub renewed : ℕ → ℕ → NoteReservation → NoteReservation
renewed until now r = record r { lease_until = until; last_heartbeat_at = now; updated_at = now }

-- The reservation, if the token holds its lease.
unfoldable pub held : String → String → ℕ → MemoryStore → Result Error NoteReservation
unfolding find_reservation require_lease_token
held id token now s = do r ← find_reservation id s; require_lease_token r token now; ok r

unfoldable pub renewable : String → String → ℕ → ℕ → MemoryStore → Result Error NoteReservation
renewable id token until now s = do
  r ← held id token now s
  guard (ltb now until) Error.lease_unavailable
  ok r

-- `HeartbeatReservationLease`.
unfoldable pub heartbeat_lease : String → String → ℕ → ℕ → Method NoteReservation
unfolding commit
heartbeat_lease id token until now s = commit (renewed until now) (renewable id token until now s) s

-- The first check of `HeartbeatReservationLeaseForStatus`.
unfoldable pub check_status : String → ReservationStatus → MemoryStore → Result Error Unit
check_status id required s = do
  r ← find_reservation id s
  guard (status_eq r.status required) Error.compare_and_set_failed

-- `HeartbeatReservationLeaseForStatus`.
unfoldable pub heartbeat_lease_for_status :
    String → String → ReservationStatus → ℕ → ℕ → Method NoteReservation
unfolding commit
heartbeat_lease_for_status id token required until now s =
    commit (renewed until now) (check_status id required s >> renewable id token until now s) s

-- What `ClearReservationLease` writes; `LastHeartbeatAt` stays.
unfoldable pub unleased : ℕ → NoteReservation → NoteReservation
unleased now r = record r { lease_owner = ""; lease_token = ""; lease_until = 0; updated_at = now }

-- `ClearReservationLease`.
unfoldable pub clear_lease : String → String → ℕ → Method NoteReservation
unfolding commit
clear_lease id token now s = commit (unleased now) (held id token now s) s
