-- ===== src/Reservation/Keeps/Leases.antt =====
-- memory_store.go: the lease methods keep a valid store valid; they never touch the index.
use clairveil.Prelude.{ℕ, String, ◌≡◌, refl, arith}
use clairveil.Prelude.Result.{ok, >>=-eq-ok}
use clairveil.Reservation.Status.{ReservationStatus}
use clairveil.Reservation.Types.{NoteReservation, active_key}
use clairveil.Reservation.Store.{MemoryStore}
use clairveil.Reservation.Lease.{
  leased, renewed, unleased, acquirable, held, renewable, check_status, acquire_lease_locked,
  heartbeat_lease, heartbeat_lease_for_status, clear_lease,
}
use clairveil.Reservation.Invariant.{IsValid, Holds, IsFree}
use clairveil.Reservation.Keeps.{Keeps, rewrite-IsFree, commit-IsValid}

pub acquirable-Holds :
    (id owner token : String) (required : ReservationStatus) (until now : ℕ) (s : MemoryStore)
    (r : NoteReservation)
    → acquirable id owner token required until now s ≡ ok r
    → Holds s id r
unfolding acquirable
acquirable-Holds id owner token required until now s r h = ground arith

pub held-Holds :
    (id token : String) (now : ℕ) (s : MemoryStore) (r : NoteReservation)
    → held id token now s ≡ ok r
    → Holds s id r
unfolding held
held-Holds id token now s r h = ground arith

pub renewable-held :
    (id token : String) (until now : ℕ) (s : MemoryStore) (r : NoteReservation)
    → renewable id token until now s ≡ ok r
    → held id token now s ≡ ok r
unfolding renewable
renewable-held id token until now s r h = ground arith

pub acquire_lease_locked-IsValid :
    (id owner token : String) (required : ReservationStatus) (until now : ℕ)
    → Keeps (acquire_lease_locked id owner token required until now)
unfolding acquire_lease_locked leased active_key
acquire_lease_locked-IsValid id owner token required until now s v =
    commit-IsValid (leased owner token until now) _ s v λ r h.
      rewrite-IsFree s id r (leased owner token until now r) v
        (acquirable-Holds id owner token required until now s r h) (λ a. a) refl refl

renewed-IsFree :
    (id token : String) (until now : ℕ) (s : MemoryStore) (r : NoteReservation)
    → IsValid s
    → renewable id token until now s ≡ ok r
    → IsFree s (renewed until now r)
unfolding renewed active_key
renewed-IsFree id token until now s r v h =
    rewrite-IsFree s id r (renewed until now r) v
      (held-Holds id token now s r (renewable-held id token until now s r h)) (λ a. a) refl refl

pub heartbeat_lease-IsValid :
    (id token : String) (until now : ℕ) → Keeps (heartbeat_lease id token until now)
unfolding heartbeat_lease
heartbeat_lease-IsValid id token until now s v =
    commit-IsValid (renewed until now) _ s v (λ r h. renewed-IsFree id token until now s r v h)

pub heartbeat_lease_for_status-IsValid :
    (id token : String) (required : ReservationStatus) (until now : ℕ)
    → Keeps (heartbeat_lease_for_status id token required until now)
unfolding heartbeat_lease_for_status
heartbeat_lease_for_status-IsValid id token required until now s v =
    commit-IsValid (renewed until now) _ s v λ r h.
      let (_, _, found) = >>=-eq-ok (check_status id required s) _ h in
      renewed-IsFree id token until now s r v found

pub clear_lease-IsValid : (id token : String) (now : ℕ) → Keeps (clear_lease id token now)
unfolding clear_lease unleased active_key
clear_lease-IsValid id token now s v = commit-IsValid (unleased now) _ s v λ r h.
    rewrite-IsFree s id r (unleased now r) v (held-Holds id token now s r h) (λ a. a) refl refl
