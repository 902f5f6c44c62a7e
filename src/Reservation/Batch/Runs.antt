-- ===== src/Reservation/Batch/Runs.antt =====
-- memory_store.go and batch_memory_store.go: runs of calls, ordinary ones and those of batches.
use clairveil.Prelude.{ℕ, String, true, false, ◌≡◌, ◌≢◌, sym, List, [], ◌∷◌, All}
use clairveil.Prelude.Dict.{lookup}
use clairveil.Reservation.Status.{is_active}
use clairveil.Reservation.Types.{NoteReservation, active_key}
use clairveil.Reservation.Invariant.{IsValid, Holds, IsValid-unique, new_store-IsValid}
use clairveil.Reservation.Calls.Spent.{IsSpent}
use clairveil.Reservation.Batch.Store.{BatchStore, new_batch_store}
use clairveil.Reservation.Batch.Trail.{Trail-lookup}
use clairveil.Reservation.Batch.Calls.{BatchCall, batch_call, run_batch}
use clairveil.Reservation.Batch.Validity.{
  On, overwrites_any, batch_call-Trail, batch_call-IsValid, batch_call-IsSpent,
}

module _ (fold : ℕ → ℕ) where
  pub run_batch-IsValid :
      (cs : List BatchCall) (b : BatchStore) → IsValid b.base → IsValid (run_batch fold cs b).base
  unfolding run_batch
  run_batch-IsValid [] b v = v
  run_batch-IsValid (c ∷ cs) b v =
      run_batch-IsValid cs (batch_call fold c b) (batch_call-IsValid fold c b v)

  -- After any calls on a new store, ordinary ones and those of batches, two active reservations with
  -- the same owner key and nullifier key are stored under the same id.
  pub run_batch_unique :
      (cs : List BatchCall) (i j : String) (x y : NoteReservation)
      → Holds (run_batch fold cs new_batch_store).base i x
      → Holds (run_batch fold cs new_batch_store).base j y
      → is_active x.status ≡ true
      → is_active y.status ≡ true
      → active_key x ≡ active_key y
      → i ≡ j
  run_batch_unique cs i j x y =
      IsValid-unique (run_batch fold cs new_batch_store).base i j x y
        (run_batch-IsValid cs new_batch_store new_store-IsValid)

  -- If the reservations of a store are valid, then one that is `ConfirmedSpent` is still stored under
  -- its id, and still `ConfirmedSpent`, after any calls, ordinary ones and those of batches, among
  -- which there is no `UpdateReservation`.
  pub run_batch-IsSpent :
      (cs : List BatchCall) (b : BatchStore) (j : String)
      → IsValid b.base
      → All (λ c. overwrites_any c ≡ false) cs
      → IsSpent b.base j
      → IsSpent (run_batch fold cs b).base j
  unfolding run_batch
  run_batch-IsSpent [] b j v fixed spent = spent
  run_batch-IsSpent (c ∷ cs) b j v fixed spent =
      run_batch-IsSpent cs (batch_call fold c b) j (batch_call-IsValid fold c b v) fixed.1
        (batch_call-IsSpent fold c b j v fixed.0 spent)

  -- If the reservations of a store are valid, a call on a batch operation leaves each reservation that
  -- is stored under an id other than those of the batch's inputs as it was, provided that the id is
  -- not empty.
  pub batch_call_spares :
      (c : BatchCall) (b : BatchStore) (j : String)
      → IsValid b.base
      → On (λ id. id ≢ j) c b
      → j ≢ ""
      → lookup j (batch_call fold c b).base.reservations ≡ lookup j b.base.reservations
  batch_call_spares c b j v on n =
      Trail-lookup j (batch_call-Trail fold (λ id. id ≢ j) c b v on (λ e. n (sym e)))
