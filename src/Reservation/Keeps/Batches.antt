-- ===== src/Reservation/Keeps/Batches.antt =====
-- memory_store.go: the methods that mark a batch of leased reservations keep a valid store valid.
use clairveil.Prelude.{
  ℕ, String, Bool, true, false, ◌≡◌, refl, subst, ◌∙◌, Option, some, List, [], ◌∷◌, map, All,
  All-map, arith,
}
use clairveil.Prelude.Result.{ok-injective, Result, ok, err, >>=-eq-ok}
use clairveil.Prelude.Exec.{continue}
use clairveil.Prelude.Dict.{StringSet, lookup, insert}
use clairveil.Reservation.Status.{ReservationStatus, is_active}
use clairveil.Reservation.Status.Laws.{status_eq-true}
use clairveil.Reservation.Types.{
  Error, NoteReservation, PayrollOperation, SubmittedReservationRef, SubmittedReservationUpdate,
  BroadcastAttemptUpdate, ProofReadyOperationUpdate, active_key,
}
use clairveil.Reservation.Store.{MemoryStore, put_reservation}
use clairveil.Reservation.Create.{put_reservations, put_operations}
use clairveil.Reservation.Links.{validate_ref, validate_leased}
use clairveil.Reservation.Marks.{
  submitted, submitted_operation, broadcast_unknown, broadcast_unknown_operation, proof_ready,
  load_marked, write_marked, mark_broadcast, mark_submitted, mark_broadcast_unknown,
  load_proof_ready, write_proof_ready, mark_proof_ready,
}
use clairveil.Reservation.Invariant.{
  IsValid, Holds, put-IsValid, put_operation-IsValid, put_owned_index,
}
use clairveil.Reservation.Keeps.{Keeps, put_operation_if-IsValid}

-- An active reservation whose key is its own.
abbrev pub IsOwned : MemoryStore → NoteReservation → Type 0
IsOwned s r =
    (is_active r.status ≡ true)
    × (lookup (active_key r) s.active_reservation_by_key ≡ some r.reservation_id)

put-IsOwned :
    (s : MemoryStore) (r q : NoteReservation)
    → IsValid s
    → IsOwned s r
    → IsOwned s q
    → IsOwned (put_reservation r s) q
put-IsOwned s r q v own h = (h.0, put_owned_index s r (active_key q) v own.0 own.1 ∙ h.1)

put_reservations-IsValid :
    (rs : List NoteReservation) (s : MemoryStore)
    → IsValid s
    → All (IsOwned s) rs
    → IsValid (put_reservations rs s)
unfolding put_reservations
put_reservations-IsValid [] s v h = v
put_reservations-IsValid (r ∷ rs) s v h =
    put_reservations-IsValid rs (put_reservation r s)
      (put-IsValid s r v (λ a id e. ground (arith, h.0.1)))
      (All-map rs (λ q. put-IsOwned s r q v h.0) h.1)

pub put_operations-IsValid :
    (os : List PayrollOperation) (s : MemoryStore) → IsValid s → IsValid (put_operations os s)
unfolding put_operations
put_operations-IsValid [] s v = v
put_operations-IsValid (o ∷ os) s v = put_operations-IsValid os _ (put_operation-IsValid o s v)

-- What the checks on a reference have established.
abbrev pub IsFound : MemoryStore → ReservationStatus → NoteReservation → Type 0
IsFound s status r = Holds s r.reservation_id r × (r.status ≡ status)

validate_ref-IsFound :
    (ref : SubmittedReservationRef) (status : ReservationStatus) (now : ℕ) (seen : StringSet)
    (s : MemoryStore) (r : NoteReservation)
    → IsValid s
    → validate_ref ref status now seen s ≡ ok r
    → IsFound s status r
unfolding validate_ref
validate_ref-IsFound ref status now seen s r v h =
    let at : Holds s ref.reservation_id r = ground arith in
    (ground (arith, v.keyed ref.reservation_id r at), status_eq-true r.status status (ground arith))

pub validate_leased-IsFound :
    (refs : List SubmittedReservationRef) (status : ReservationStatus) (now : ℕ) (seen : StringSet)
    (s : MemoryStore) (rs : List NoteReservation)
    → IsValid s
    → validate_leased refs status now seen s ≡ ok rs
    → All (IsFound s status) rs
unfolding validate_leased
validate_leased-IsFound [] status now seen s [] v h = tt
validate_leased-IsFound [] status now seen s (r ∷ rs) v h = absurd (cc)
validate_leased-IsFound (ref ∷ refs) status now seen s rs v h =
    let (r, found, h') = >>=-eq-ok (validate_ref ref status now seen s) _ h in
    let (rest, more, same) =
      >>=-eq-ok (validate_leased refs status now (insert ref.reservation_id tt seen) s) _ h' in
    subst (λ l. All (IsFound s status) l) (ok-injective same)
      (
        validate_ref-IsFound ref status now seen s r v found,
        validate_leased-IsFound refs status now (insert ref.reservation_id tt seen) s rest v more,
      )

-- A change of a found reservation that keeps its id and key, and makes it active.
abbrev Retains : ReservationStatus → (NoteReservation → NoteReservation) → Type 0
Retains status f =
    (r : NoteReservation)
    → r.status ≡ status
    → ((f r).reservation_id ≡ r.reservation_id)
      × (active_key (f r) ≡ active_key r)
      × (is_active (f r).status ≡ true)

map-IsOwned :
    (status : ReservationStatus) (f : NoteReservation → NoteReservation) (s : MemoryStore)
    (rs : List NoteReservation)
    → IsValid s
    → is_active status ≡ true
    → Retains status f
    → All (IsFound s status) rs
    → All (IsOwned s) (map f rs)
map-IsOwned status f s [] v a keep h = tt
map-IsOwned status f s (r ∷ rs) v a keep h = (
  ground (arith, keep r h.0.1, v.complete r.reservation_id r h.0.0),
  map-IsOwned status f s rs v a keep h.1,
)

pub load_marked-IsFound :
    (refs : List SubmittedReservationRef) (ids : List String) (now : ℕ) (s : MemoryStore)
    (rs : List NoteReservation) (os : List PayrollOperation)
    → IsValid s
    → load_marked refs ids now s ≡ ok (rs, os)
    → All (IsFound s ReservationStatus.proof_ready) rs
unfolding load_marked
load_marked-IsFound refs ids now s rs os v h =
    validate_leased-IsFound refs ReservationStatus.proof_ready now [] s rs v (ground arith)

module _ (f : NoteReservation → NoteReservation) (g : PayrollOperation → PayrollOperation)
    (keep : Retains ReservationStatus.proof_ready f) where
  mark_broadcast-IsValid :
      (identified : Bool) (refs : List SubmittedReservationRef) (ids : List String) (now : ℕ)
      → Keeps (mark_broadcast f g identified refs ids now)
  unfolding mark_broadcast is_active
  mark_broadcast-IsValid identified [] ids now s v = v
  mark_broadcast-IsValid false (ref ∷ refs) ids now s v = v
  mark_broadcast-IsValid true (ref ∷ refs) ids now s v =
      go (load_marked (ref ∷ refs) ids now s) refl
    where
      go :
          (m : Result Error (List NoteReservation × List PayrollOperation))
          → load_marked (ref ∷ refs) ids now s ≡ m
          → IsValid (continue m (write_marked f g) s).1
      go (err x) e = v
      go (ok (rs, os)) e = put_operations-IsValid (map g os) _ (
          put_reservations-IsValid (map f rs) s v (
            map-IsOwned ReservationStatus.proof_ready f s rs v refl keep
              (load_marked-IsFound (ref ∷ refs) ids now s rs os v e)))

submitted-Retains :
    (u : SubmittedReservationUpdate) (now : ℕ)
    → Retains ReservationStatus.proof_ready (submitted u now)
unfolding submitted active_key is_active
submitted-Retains u now r h = (refl, refl, refl)

broadcast_unknown-Retains :
    (u : BroadcastAttemptUpdate) (now : ℕ)
    → Retains ReservationStatus.proof_ready (broadcast_unknown u now)
unfolding broadcast_unknown active_key is_active
broadcast_unknown-Retains u now r h = (refl, refl, refl)

proof_ready-Retains : (now : ℕ) → Retains ReservationStatus.proving (proof_ready now)
unfolding proof_ready active_key is_active
proof_ready-Retains now r h = (refl, refl, refl)

pub mark_submitted-IsValid :
    (refs : List SubmittedReservationRef) (ids : List String) (u : SubmittedReservationUpdate)
    (now : ℕ)
    → Keeps (mark_submitted refs ids u now)
unfolding mark_submitted
mark_submitted-IsValid refs ids u now =
    mark_broadcast-IsValid (submitted u now) (submitted_operation u now) (submitted-Retains u now) _
      refs ids now

pub mark_broadcast_unknown-IsValid :
    (refs : List SubmittedReservationRef) (ids : List String) (u : BroadcastAttemptUpdate) (now : ℕ)
    → Keeps (mark_broadcast_unknown refs ids u now)
unfolding mark_broadcast_unknown
mark_broadcast_unknown-IsValid refs ids u now =
    mark_broadcast-IsValid (broadcast_unknown u now) (broadcast_unknown_operation u now)
      (broadcast_unknown-Retains u now) _ refs ids now

pub load_proof_ready-IsFound :
    (refs : List SubmittedReservationRef) (u : ProofReadyOperationUpdate) (now : ℕ)
    (s : MemoryStore) (rs : List NoteReservation) (o : Option PayrollOperation)
    → IsValid s
    → load_proof_ready refs u now s ≡ ok (rs, o)
    → All (IsFound s ReservationStatus.proving) rs
unfolding load_proof_ready
load_proof_ready-IsFound refs u now s rs o v h =
    validate_leased-IsFound refs ReservationStatus.proving now [] s rs v (ground arith)

pub mark_proof_ready-IsValid :
    (refs : List SubmittedReservationRef) (u : ProofReadyOperationUpdate) (now : ℕ)
    → Keeps (mark_proof_ready refs u now)
unfolding mark_proof_ready is_active
mark_proof_ready-IsValid refs u now s v = go (load_proof_ready refs u now s) refl
  where
    go :
        (m : Result Error (List NoteReservation × Option PayrollOperation))
        → load_proof_ready refs u now s ≡ m
        → IsValid (continue m (write_proof_ready now) s).1
    go (err x) e = v
    go (ok (rs, o)) e = put_operation_if-IsValid o _ (
        put_reservations-IsValid (map (proof_ready now) rs) s v (
          map-IsOwned ReservationStatus.proving (proof_ready now) s rs v refl
            (proof_ready-Retains now) (load_proof_ready-IsFound refs u now s rs o v e)))
