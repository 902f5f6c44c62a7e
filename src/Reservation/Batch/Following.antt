-- ===== src/Reservation/Batch/Following.antt =====
-- batch_memory_store.go: how the inputs of a batch follow it when `RecordBatchBroadcast` sends it.
use clairveil.Prelude.{
  ℕ, String, Bool, true, false, not, ◌||◌, ◌≡◌, refl, subst, Option, none, some, List, [], ◌∷◌, All,
  All-map, arith, str_eq, ltb,
}
use clairveil.Prelude.Result.{Result, ok, or_fail, guard, >>=-then, ok-injective}
use clairveil.Prelude.Dict.{lookup}
use clairveil.Reservation.Status.{ReservationStatus, OperationStatus, is_active}
use clairveil.Reservation.Types.{Error, NoteReservation}
use clairveil.Reservation.Store.{MemoryStore}
use clairveil.Reservation.Transition.{require_lease_token}
use clairveil.Reservation.Links.{is_blank}
use clairveil.Reservation.Invariant.{IsValid, Holds}
use clairveil.Reservation.Batch.Types.{BatchOperation, OperationInputReservation}
use clairveil.Reservation.Batch.Store.{
  BatchStore, inputs_of, find_batch, require_input_leases, require_batch_lease, transition_inputs,
}
use clairveil.Reservation.Batch.Transition.{finish}
use clairveil.Reservation.Batch.Broadcast.{sent, sent_input, follow}
use clairveil.Reservation.Batch.Has.{Has, Each}
use clairveil.Reservation.Batch.Moves.{
  HasStatus, transition_inputs-Each, transition-IsValid, finish-Has,
}

-- The status that the inputs go to, if they move, when a batch with the status is sent.
abbrev pub goal : OperationStatus → Bool → Option ReservationStatus
goal OperationStatus.proof_ready unknown = some (sent_input unknown)
goal OperationStatus.submitted true = some ReservationStatus.unknown
goal _ _ = none

-- The inputs have the goal's status, or without a goal the statuses that they had.
abbrev pub InputsAt :
    Option ReservationStatus → List OperationInputReservation → MemoryStore → MemoryStore → Type 0
InputsAt (some status) is s t = Each (HasStatus status) is t
InputsAt none is s t =
    All
      (λ (i : OperationInputReservation).
        (q : NoteReservation) × Holds s i.reservation_id q
        × Has (HasStatus q.status) t i.reservation_id)
      is

abbrev source : OperationStatus → ReservationStatus
source OperationStatus.proof_ready = ReservationStatus.proof_ready
source _ = ReservationStatus.submitted

require_input_leases-stored :
    (is : List OperationInputReservation) (token : String) (now : ℕ) (s : MemoryStore)
    → require_input_leases is token now s ≡ ok tt
    → InputsAt none is s s
unfolding require_input_leases
require_input_leases-stored [] token now s h = tt
require_input_leases-stored (i ∷ is) token now s h =
    >>=-then (or_fail (lookup i.reservation_id s.reservations) _) _ h λ r at h.
      >>=-then (require_lease_token r token now) _ h λ _ _ h.
        let at' : Holds s i.reservation_id r = ground arith in
        ((r, at', (r, at', refl)), require_input_leases-stored is token now s h)

pub require_batch_lease-stored :
    (id token : String) (now : ℕ) (b : BatchStore) (op : BatchOperation)
    → require_batch_lease id token now b ≡ ok op
    → InputsAt none (inputs_of id b) b.base b.base
unfolding require_batch_lease
require_batch_lease-stored id token now b op h = >>=-then (find_batch id b) _ h λ o _ h.
    >>=-then
      (guard
        (not (is_blank token || not (str_eq o.lease_token token) || not (ltb now o.lease_until))) _)
      _ h
      λ _ _ h.
        >>=-then (require_input_leases (inputs_of id b) token now b.base) _ h
          λ _ leased _. require_input_leases-stored (inputs_of id b) token now b.base leased

module _ (id token : String) (now : ℕ) (b : BatchStore) (v : IsValid b.base) where
  unfoldable pub by_goal : OperationStatus → Option ReservationStatus → Result Error MemoryStore
  by_goal previous none = ok b.base
  by_goal previous (some status) = transition_inputs id (source previous) status token now b

  pub follow-goal :
      (previous : OperationStatus) (unknown : Bool)
      → follow id token previous (sent unknown) now b ≡ by_goal previous (goal previous unknown)
  unfolding follow by_goal
  follow-goal OperationStatus.proof_ready true = refl
  follow-goal OperationStatus.proof_ready false = refl
  follow-goal OperationStatus.submitted true = refl
  follow-goal OperationStatus.submitted false = refl
  follow-goal (OperationStatus.other n) unknown = ground arith
  follow-goal _ true = refl
  follow-goal _ false = refl

  goal-active :
      (previous : OperationStatus) (unknown : Bool) (status : ReservationStatus)
      → goal previous unknown ≡ some status
      → (is_active (source previous) ≡ true) × (is_active status ≡ true)
  unfolding is_active
  goal-active OperationStatus.proof_ready true status h = (refl, ground arith)
  goal-active OperationStatus.proof_ready false status h = (refl, ground arith)
  goal-active OperationStatus.submitted true status h = (refl, ground arith)
  goal-active OperationStatus.submitted false status h = absurd (cc)
  goal-active _ unknown status h = absurd (cc)

  -- The end of the method, from the inputs that are in their statuses.
  pub finish-InputsAt :
      (g : Option ReservationStatus) (op : BatchOperation) (s : MemoryStore)
      (is : List OperationInputReservation)
      → IsValid s
      → InputsAt g is b.base s
      → InputsAt g is b.base (finish id now op s b).1.base
  finish-InputsAt (some status) op s is w h =
      All-map is (λ i has. finish-Has id now op s b status i.reservation_id w has) h
  finish-InputsAt none op s is w h =
      All-map is
        (λ i (q, at, has). (q, at, finish-Has id now op s b q.status i.reservation_id w has)) h

  pub by_goal-InputsAt :
      (previous : OperationStatus) (unknown : Bool) (g : Option ReservationStatus) (s : MemoryStore)
      → goal previous unknown ≡ g
      → InputsAt none (inputs_of id b) b.base b.base
      → by_goal previous g ≡ ok s
      → IsValid s × InputsAt g (inputs_of id b) b.base s
  unfolding by_goal
  by_goal-InputsAt previous unknown none s e stored h =
      subst (λ t. IsValid t × InputsAt none (inputs_of id b) b.base t) (ok-injective h) (v, stored)
  by_goal-InputsAt previous unknown (some status) s e stored h =
      let (a, a') = goal-active previous unknown status e in
      (
        transition-IsValid id (source previous) status token now b s v a a' h,
        (transition_inputs-Each id (source previous) status token now b s v h).1,
      )
