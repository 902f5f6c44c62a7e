-- ===== src/Reservation/Lease/Exclusion.antt =====
-- lease.go and memory_store.go: a lease excludes every other worker until it ends.
use clairveil.Prelude.{ℕ, String, true, ◌≡◌, ◌≢◌, ◌<◌, refl, sym, subst, ◌∙◌, str_eq_iff, arith}
use clairveil.Prelude.Result.{Result, ok, err, ok-injective}
use clairveil.Reservation.Status.{ReservationStatus, requires_lease_token}
use clairveil.Reservation.Types.{Error, NoteReservation}
use clairveil.Reservation.Store.{MemoryStore, put_reservation, commit}
use clairveil.Reservation.Transition.{
  require_lease_token, check_lease, compare_and_set, compare_and_set_with_lease, find_reservation,
}
use clairveil.Reservation.Lease.{
  leased, check_acquire, acquirable, acquire_lease_locked, heartbeat_lease, clear_lease, held,
  renewable,
}
use clairveil.Reservation.Invariant.{IsValid, Holds, lookup-put}

-- The lease of a reservation has a token and has not ended.
pub record IsLeased (r : NoteReservation) (now : ℕ) : Type 0 where
  pub has_token : r.lease_token ≢ ""
  pub running : now < r.lease_until

check_acquire-leased :
    (owner token : String) (required : ReservationStatus) (until now : ℕ) (r : NoteReservation)
    → IsLeased r now
    → check_acquire owner token required until now r ≢ ok tt
unfolding check_acquire
check_acquire-leased owner token required until now r l h =
    ground (arith, str_eq_iff r.lease_token "")

-- What a token must be to pass.
pub require_lease_token-eq-ok :
    (r : NoteReservation) (token : String) (now : ℕ)
    → require_lease_token r token now ≡ ok tt
    → (token ≡ r.lease_token) × IsLeased r now
unfolding require_lease_token
require_lease_token-eq-ok r token now h = (
  ground (arith, str_eq_iff token r.lease_token),
  record {
    has_token = ground (arith, str_eq_iff token r.lease_token, str_eq_iff token "");
    running = ground arith;
  },
)

acquirable-leased :
    (id owner token : String) (required : ReservationStatus) (until now : ℕ) (s : MemoryStore)
    (r : NoteReservation)
    → Holds s id r
    → IsLeased r now
    → (e : Error) × (acquirable id owner token required until now s ≡ err e)
unfolding acquirable
acquirable-leased id owner token required until now s r at l =
    go (check_acquire owner token required until now r) refl
  where
    go :
        (m : Result Error Unit)
        → check_acquire owner token required until now r ≡ m
        → (e : Error) × (acquirable id owner token required until now s ≡ err e)
    go (ok tt) h = absurd (check_acquire-leased owner token required until now r l h)
    go (err e) h = (e, ground arith)

check_acquire-eq-ok :
    (owner token : String) (required : ReservationStatus) (until now : ℕ) (r : NoteReservation)
    → check_acquire owner token required until now r ≡ ok tt
    → (token ≢ "") × (now < until)
unfolding check_acquire
check_acquire-eq-ok owner token required until now r h =
    (ground (arith, str_eq_iff token ""), ground arith)

acquirable-eq-ok :
    (id owner token : String) (required : ReservationStatus) (until now : ℕ) (s : MemoryStore)
    (r : NoteReservation)
    → acquirable id owner token required until now s ≡ ok r
    → Holds s id r × (check_acquire owner token required until now r ≡ ok tt)
unfolding acquirable
acquirable-eq-ok id owner token required until now s r h = ground arith

put-Holds :
    (id owner token : String) (until now : ℕ) (s : MemoryStore) (q : NoteReservation)
    → IsValid s
    → Holds s id q
    → let r = leased owner token until now q in Holds (put_reservation r s) id r
unfolding leased
put-Holds id owner token until now s q v at = ground (
  arith,
  lookup-put s (leased owner token until now q) id,
  str_eq_iff q.reservation_id id,
  v.keyed id q at,
)

-- A lease that was granted stands in the store, with the token and the end that were asked for.
acquired :
    (id owner token : String) (required : ReservationStatus) (until now : ℕ) (s : MemoryStore)
    (r : NoteReservation)
    → IsValid s
    → (acquire_lease_locked id owner token required until now s).0 ≡ ok r
    → let t = (acquire_lease_locked id owner token required until now s).1 in
      Holds t id r × (r.lease_token ≡ token) × (r.lease_until ≡ until) × (token ≢ "")
unfolding acquire_lease_locked leased
acquired id owner token required until now s r v h =
    go (acquirable id owner token required until now s) refl h
  where
    go :
        (m : Result Error NoteReservation)
        → acquirable id owner token required until now s ≡ m
        → (commit (leased owner token until now) m s).0 ≡ ok r
        → let t = (commit (leased owner token until now) m s).1 in
          Holds t id r × (r.lease_token ≡ token) × (r.lease_until ≡ until) × (token ≢ "")
    go (err e) a c = absurd (cc)
    go (ok q) a c =
        let (at, passed) = acquirable-eq-ok id owner token required until now s q a in
        subst
          (λ x.
            Holds (put_reservation (leased owner token until now q) s) id x
            × (x.lease_token ≡ token)
            × (x.lease_until ≡ until)
            × (token ≢ ""))
          (ok-injective c)
          (
            put-Holds id owner token until now s q v at,
            refl,
            refl,
            (check_acquire-eq-ok owner token required until now q passed).0,
          )

commit-err :
    (f : NoteReservation → NoteReservation) (m : Result Error NoteReservation) (s : MemoryStore)
    → ((e : Error) × (m ≡ err e))
    → (e : Error) × (commit f m s ≡ (err e, s))
unfolding commit
commit-err f (ok q) s (e, h) = absurd (cc)
commit-err f (err x) s h = (x, refl)

-- A lease that was granted in a valid store excludes every other: until it ends, acquiring the same
-- reservation fails, under any owner, token or required status, and changes nothing.
pub acquire_excludes :
    (id owner token : String) (required : ReservationStatus) (until now : ℕ) (s : MemoryStore)
    (r : NoteReservation) (owner' token' : String) (required' : ReservationStatus) (until' now' : ℕ)
    → IsValid s
    → (acquire_lease_locked id owner token required until now s).0 ≡ ok r
    → now' < until
    → let t = (acquire_lease_locked id owner token required until now s).1 in
      (e : Error) × (acquire_lease_locked id owner' token' required' until' now' t ≡ (err e, t))
acquire_excludes id owner token required until now s r owner' token' required' until' now' v h
      soon =
    let (at, same_token, same_end, n) = acquired id owner token required until now s r v h in
    let t : MemoryStore = (acquire_lease_locked id owner token required until now s).1 in
    unfold acquire_lease_locked in
    commit-err (leased owner' token' until' now')
      (acquirable id owner' token' required' until' now' t) t
      (acquirable-leased id owner' token' required' until' now' t r at (record {
        has_token = λ e. n (sym same_token ∙ e);
        running = subst (λ (u : ℕ). now' < u) (sym same_end) soon;
      }))

check_lease-mismatch :
    (id token : String) (now : ℕ) (s : MemoryStore) (r : NoteReservation)
    → Holds s id r
    → token ≢ r.lease_token
    → check_lease id token now s ≡ err Error.lease_mismatch
unfolding check_lease require_lease_token find_reservation
check_lease-mismatch id token now s r at n = ground (arith, str_eq_iff token r.lease_token)

held-mismatch :
    (id token : String) (now : ℕ) (s : MemoryStore) (r : NoteReservation)
    → Holds s id r
    → token ≢ r.lease_token
    → held id token now s ≡ err Error.lease_mismatch
unfolding held
held-mismatch id token now s r at n = ground (arith, str_eq_iff token r.lease_token)

-- A worker whose token is not that of the stored reservation is fenced off: it can neither make a
-- transition that requires a lease, with its token or without, nor renew nor clear the lease. Each call
-- fails with `ErrLeaseMismatch` and changes nothing.
pub lease_fences :
    (id token : String) (from to : ReservationStatus) (until now : ℕ) (s : MemoryStore)
    (r : NoteReservation)
    → Holds s id r
    → token ≢ r.lease_token
    → requires_lease_token from to ≡ true
    → (compare_and_set_with_lease id token from to now s ≡ (err Error.lease_mismatch, s))
      × (compare_and_set id from to now s ≡ (err Error.lease_mismatch, s))
      × (heartbeat_lease id token until now s ≡ (err Error.lease_mismatch, s))
      × (clear_lease id token now s ≡ (err Error.lease_mismatch, s))
unfolding compare_and_set_with_lease compare_and_set heartbeat_lease clear_lease renewable
lease_fences id token from to until now s r at n leased_step = (
  rw (check_lease-mismatch id token now s r at n),
  rw leased_step,
  rw (held-mismatch id token now s r at n),
  rw (held-mismatch id token now s r at n),
)
