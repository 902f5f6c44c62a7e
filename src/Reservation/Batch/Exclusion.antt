-- ===== src/Reservation/Batch/Exclusion.antt =====
-- batch_memory_store.go: a batch lease and requests for the batch or its inputs before its end.
use clairveil.Prelude.{
  ℕ, String, true, false, ◌&&◌, ◌≡◌, ◌≢◌, ◌<◌, refl, sym, ◌∙◌, some, List, [], ◌∷◌, map, All,
  All-map, str_eq_iff, str_eq_refl, arith,
}
use clairveil.Prelude.Result.{Result, ok, err, guard, >>=-then}
use clairveil.Prelude.Exec.{continue}
use clairveil.Prelude.Dict.{lookup, lookup-insert}
use clairveil.Reservation.Status.{ReservationStatus, is_active, is_terminal_operation, status_eq}
use clairveil.Reservation.Types.{Error, NoteReservation}
use clairveil.Reservation.Store.{MemoryStore, commit}
use clairveil.Reservation.Transition.{find_reservation}
use clairveil.Reservation.Lease.{leased, check_acquire, acquire_lease, acquire_lease_locked}
use clairveil.Reservation.Lease
use clairveil.Reservation.Invariant.{IsValid, Holds}
use clairveil.Reservation.Links.{is_blank}
use clairveil.Reservation.Batch.Types.{BatchOperation, OperationInputReservation}
use clairveil.Reservation.Batch.Store.{BatchStore, inputs_of, find_batch, put_batch}
use clairveil.Reservation.Batch.Lease.{
  is_free, check_free, batch_acquirable, grant, acquire_batch_lease, leased_operation,
}
use clairveil.Reservation.Batch.Rides.{batch_acquirable-parts}
use clairveil.Reservation.Batch.Has.{Has, Each, rewritten-Each}

abbrev pub IsLeasedTo : String → ℕ → NoteReservation → Type 0
IsLeasedTo token until r =
    (is_active r.status ≡ true) × (r.lease_token ≡ token) × (r.lease_until ≡ until)

-- The batch and all its inputs have the lease.
pub record IsLeasedBatch (id token : String) (until : ℕ) (b : BatchStore) : Type 0 where
  pub operation : BatchOperation
  pub stored : lookup id b.batch_operations ≡ some operation
  pub has_token : token ≢ ""
  pub leased_token : operation.lease_token ≡ token
  pub leased_until : operation.lease_until ≡ until
  pub live : is_terminal_operation operation.status ≡ false
  pub inputs : Each (IsLeasedTo token until) (inputs_of id b) b.base

check_free-active :
    (now : ℕ) (rs : List NoteReservation)
    → check_free now rs ≡ ok tt
    → All (λ r. is_active r.status ≡ true) rs
unfolding check_free
check_free-active now [] h = tt
check_free-active now (r ∷ rs) h =
    >>=-then (guard (is_active r.status && is_free r.lease_token r.lease_until now) _) _ h
      λ _ free h. (ground arith, check_free-active now rs h)

leased-IsLeasedTo :
    (owner token : String) (until now : ℕ) (rs : List NoteReservation)
    → All (λ r. is_active r.status ≡ true) rs
    → All (IsLeasedTo token until) (map (leased owner token until now) rs)
unfolding leased
leased-IsLeasedTo owner token until now [] h = tt
leased-IsLeasedTo owner token until now (r ∷ rs) h =
    ((h.0, refl, refl), leased-IsLeasedTo owner token until now rs h.1)

module _ (id : String) where
  grant-IsLeased :
      (owner token : String) (until now : ℕ) (b : BatchStore) (op : BatchOperation)
      (rs : List NoteReservation)
      → IsValid b.base
      → batch_acquirable id owner token until now b ≡ ok (op, rs)
      → IsLeasedBatch id token until (grant id owner token until now (op, rs) b).1
  unfolding grant put_batch leased_operation leased is_blank
  grant-IsLeased owner token until now b op rs v h =
      let (known, named, live, found, free) =
        batch_acquirable-parts (λ j. Unit) id owner token until now b op rs h in
      record {
        operation = leased_operation owner token until now op;
        stored = rw (lookup-insert, str_eq_refl id) refl;
        has_token = λ e. absurd (cc (rw e at named));
        leased_token = refl;
        leased_until = refl;
        live = live;
        inputs =
            rewritten-Each (IsLeasedTo token until) (leased owner token until now) (inputs_of id b)
              b.base b.base rs v (λ r. refl) found
              (leased-IsLeasedTo owner token until now rs (check_free-active now rs free));
      }

  pub acquire_batch_lease-IsLeased :
      (owner token : String) (until now : ℕ) (b : BatchStore) (op : BatchOperation)
      → IsValid b.base
      → (acquire_batch_lease id owner token until now b).0 ≡ ok op
      → IsLeasedBatch id token until (acquire_batch_lease id owner token until now b).1
  unfolding acquire_batch_lease
  acquire_batch_lease-IsLeased owner token until now b op v h =
      go (batch_acquirable id owner token until now b) refl h
    where
      go :
          (m : Result Error (BatchOperation × List NoteReservation))
          → batch_acquirable id owner token until now b ≡ m
          → (continue m (grant id owner token until now) b).0 ≡ ok op
          → IsLeasedBatch id token until (continue m (grant id owner token until now) b).1
      go (err e) h g = absurd (cc)
      go (ok (o, rs)) h g = grant-IsLeased owner token until now b o rs v h

  -- While the lease runs, the checks of another request fail.
  batch_acquirable-leased :
      (token : String) (until : ℕ) (b : BatchStore) (owner' token' : String) (until' now : ℕ)
      → IsLeasedBatch id token until b
      → now < until
      → batch_acquirable id owner' token' until' now b ≡ err Error.lease_unavailable
  unfolding batch_acquirable find_batch is_free
  batch_acquirable-leased token until b owner' token' until' now l running = ground (
    arith,
    l.stored,
    l.has_token,
    l.leased_token,
    l.leased_until,
    str_eq_iff l.operation.lease_token "",
  )

  refused_batch :
      (token : String) (until : ℕ) (b : BatchStore) (owner' token' : String) (until' now : ℕ)
      → IsLeasedBatch id token until b
      → now < until
      → acquire_batch_lease id owner' token' until' now b ≡ (err Error.lease_unavailable, b)
  unfolding acquire_batch_lease
  refused_batch token until b owner' token' until' now l running =
      rw (batch_acquirable-leased token until b owner' token' until' now l running) refl

  refused_input :
      (j owner token : String) (until now : ℕ) (s : MemoryStore) (r : NoteReservation)
      → Holds s j r
      → is_active r.status ≡ true
      → r.lease_token ≢ ""
      → now < r.lease_until
      → Lease.acquirable j owner token ReservationStatus.unset until now s
        ≡ err Error.lease_unavailable
  unfolding Lease.acquirable check_acquire find_reservation status_eq
  refused_input j owner token until now s r at active named running =
      ground (arith, str_eq_iff r.lease_token "")

  input_leased :
      (token : String) (until : ℕ) (j : String) (s : MemoryStore) (owner' token' : String)
      (until' now : ℕ)
      → token ≢ ""
      → now < until
      → Has (IsLeasedTo token until) s j
      → acquire_lease j owner' token' until' now s ≡ (err Error.lease_unavailable, s)
  unfolding acquire_lease acquire_lease_locked commit
  input_leased token until j s owner' token' until' now named running (r, at, leases) =
      rw
        (refused_input j owner' token' until' now s r at leases.0 (λ e. named (sym leases.1 ∙ e))
          (rw leases.2 running))
        refl

  -- After a batch lease was acquired in a store with valid reservations, and before its end, acquiring
  -- the batch again, or one of its inputs on its own, fails for any owner and token, and changes
  -- nothing.
  pub acquire_batch_excludes :
      (owner token : String) (until now : ℕ) (b : BatchStore) (op : BatchOperation)
      (owner' token' : String) (until' now' : ℕ)
      → IsValid b.base
      → (acquire_batch_lease id owner token until now b).0 ≡ ok op
      → now' < until
      → let c = (acquire_batch_lease id owner token until now b).1 in
        (acquire_batch_lease id owner' token' until' now' c ≡ (err Error.lease_unavailable, c))
        × All
            (λ (i : OperationInputReservation).
              acquire_lease i.reservation_id owner' token' until' now' c.base
              ≡ (err Error.lease_unavailable, c.base))
            (inputs_of id c)
  acquire_batch_excludes owner token until now b op owner' token' until' now' v h running =
      let c = (acquire_batch_lease id owner token until now b).1 in
      let l = acquire_batch_lease-IsLeased owner token until now b op v h in
      (
        refused_batch token until c owner' token' until' now' l running,
        All-map (inputs_of id c)
            (λ i has.
              input_leased token until i.reservation_id c.base owner' token' until' now' l.has_token
                running has)
            l.inputs,
      )
