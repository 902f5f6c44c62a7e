-- ===== src/Reservation/Batch/Expiry.antt =====
-- batch_memory_store.go: a batch lease and requests for the batch after its end.
use clairveil.Prelude.{ℕ, String, false, ◌≡◌, ◌<◌, ◌≤◌, refl, List, [], ◌∷◌, All, arith}
use clairveil.Prelude.Result.{ok}
use clairveil.Reservation.Types.{NoteReservation}
use clairveil.Reservation.Store.{MemoryStore}
use clairveil.Reservation.Invariant.{IsValid}
use clairveil.Reservation.Links.{is_blank}
use clairveil.Reservation.Batch.Types.{BatchOperation, OperationInputReservation}
use clairveil.Reservation.Batch.Store.{BatchStore, inputs_of, find_batch, input_reservations}
use clairveil.Reservation.Batch.Lease.{
  is_free, check_free, batch_acquirable, grant, acquire_batch_lease, leased_operation,
}
use clairveil.Reservation.Batch.Has.{Each}
use clairveil.Reservation.Batch.Exclusion.{IsLeasedTo, IsLeasedBatch, acquire_batch_lease-IsLeased}

module _ (id : String) where
  input_reservations-leased :
      (token : String) (until : ℕ) (is : List OperationInputReservation) (s : MemoryStore)
      → Each (IsLeasedTo token until) is s
      → (rs : List NoteReservation) × (input_reservations is s ≡ ok rs)
        × All (IsLeasedTo token until) rs
  unfolding input_reservations
  input_reservations-leased token until [] s h = ([], refl, tt)
  input_reservations-leased token until (i ∷ is) s h =
      let (rs, found, all) = input_reservations-leased token until is s h.1 in
      (h.0.0 ∷ rs, rw (h.0.1, found) refl, (h.0.2, all))

  leased-check_free :
      (token : String) (until now : ℕ) (rs : List NoteReservation)
      → until ≤ now
      → All (IsLeasedTo token until) rs
      → check_free now rs ≡ ok tt
  unfolding check_free is_free
  leased-check_free token until now [] over h = refl
  leased-check_free token until now (r ∷ rs) over h =
      ground (arith, h.0, leased-check_free token until now rs over h.1)

  granted :
      (token : String) (until : ℕ) (b : BatchStore) (owner' token' : String) (until' now : ℕ)
      → IsLeasedBatch id token until b
      → until ≤ now
      → now < until'
      → is_blank owner' ≡ false
      → is_blank token' ≡ false
      → (op : BatchOperation) × ((acquire_batch_lease id owner' token' until' now b).0 ≡ ok op)
  unfolding acquire_batch_lease batch_acquirable grant is_free find_batch
  granted token until b owner' token' until' now l over later o t =
      let (rs, found, all) =
        input_reservations-leased token until (inputs_of id b) b.base l.inputs in
      let free = leased-check_free token until now rs over all in
      (
        leased_operation owner' token' until' now l.operation,
        ground (arith, l.stored, found, free, l.live, l.leased_until),
      )

  -- After a batch lease was acquired in a store with valid reservations, and from its end on, any owner
  -- and token that are not blank can acquire the batch, until a later time.
  pub acquire_batch_lease_again :
      (owner token : String) (until now : ℕ) (b : BatchStore) (op : BatchOperation)
      (owner' token' : String) (until' now' : ℕ)
      → IsValid b.base
      → (acquire_batch_lease id owner token until now b).0 ≡ ok op
      → until ≤ now'
      → now' < until'
      → is_blank owner' ≡ false
      → is_blank token' ≡ false
      → (op' : BatchOperation) × ((acquire_batch_lease id owner' token' until' now'
            (acquire_batch_lease id owner token until now b).1).0
          ≡ ok op')
  acquire_batch_lease_again owner token until now b op owner' token' until' now' v h over later o
        t =
      let l = acquire_batch_lease-IsLeased id owner token until now b op v h in
      granted token until _ owner' token' until' now' l over later o t
