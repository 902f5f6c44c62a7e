-- ===== src/Reservation/Batch/Moves.antt =====
-- batch_memory_store.go: the statuses of an operation and of its inputs after a transition.
use clairveil.Prelude.{
  ℕ, String, true, not, ◌||◌, ◌≡◌, refl, sym, ap, subst, ◌∙◌, some, List, [], ◌∷◌, map, All,
  All-map, arith, str_eq_refl,
}
use clairveil.Prelude.Result.{Result, ok, err, After, or_fail, guard, >>=-then, ok-injective}
use clairveil.Prelude.Exec.{continue}
use clairveil.Prelude.Dict.{lookup, lookup-insert}
use clairveil.Reservation.Status.{ReservationStatus, OperationStatus, is_active}
use clairveil.Reservation.Types.{Error, NoteReservation}
use clairveil.Reservation.Store.{MemoryStore}
use clairveil.Reservation.Transition.{require_lease_token}
use clairveil.Reservation.Links.{is_blank, is_nil}
use clairveil.Reservation.Invariant.{IsValid}
use clairveil.Reservation.Evidence.{operation_status_eq}
use clairveil.Reservation.Batch.Types.{
  BatchOperation, OperationInputReservation, BatchProofArtifactUpdate,
}
use clairveil.Reservation.Batch.Store.{
  BatchStore, inputs_of, input_reservations, check_movable, moved_input, transition_inputs,
  require_batch_lease, put_batch, clear_operation_lease,
}
use clairveil.Reservation.Batch.Transition.{finish}
use clairveil.Reservation.Batch.Signing.{payload_after, provable, save_proof}
use clairveil.Reservation.Batch.Trail.{Trail-IsValid}
use clairveil.Reservation.Batch.Loops.{
  check_movable-IsMovable, moved_input_id, moved_input_status, transition_inputs-Trail,
}
use clairveil.Reservation.Batch.Validity.{all_named}
use clairveil.Reservation.Batch.Has.{Has, Each, rewritten-Each, clear_input_leases-Has}

pub found-Each :
    (Q : NoteReservation → Type 0) (is : List OperationInputReservation) (s : MemoryStore)
    (rs : List NoteReservation)
    → input_reservations is s ≡ ok rs
    → All Q rs
    → Each Q is s
unfolding input_reservations
found-Each Q [] s rs h q = tt
found-Each Q (i ∷ is) s rs h q =
    >>=-then (or_fail (lookup i.reservation_id s.reservations) _) _ h λ r at h.
      >>=-then (input_reservations is s) _ h λ rest more h.
        let e : (r ∷ rest) ≡ rs = ok-injective h in
        let (qr, qs) : Q r × All Q rest = subst (λ l. All Q l) (sym e) q in
        ((r, ground arith, qr), found-Each Q is s rest more qs)

-- A reservation with the status.
abbrev pub HasStatus : ReservationStatus → NoteReservation → Type 0
HasStatus status r = r.status ≡ status

-- A reservation with the status, and with a running lease of the token.
abbrev pub IsReady : ReservationStatus → String → ℕ → NoteReservation → Type 0
IsReady status token now r = (r.status ≡ status) × (require_lease_token r token now ≡ ok tt)

module _ (id : String) where
  -- A transition takes each input from the one status to the other.
  pub transition_inputs-Each :
      (from to : ReservationStatus) (token : String) (now : ℕ) (b : BatchStore) (t : MemoryStore)
      → IsValid b.base
      → transition_inputs id from to token now b ≡ ok t
      → Each (IsReady from token now) (inputs_of id b) b.base
        × Each (HasStatus to) (inputs_of id b) t
  unfolding transition_inputs
  transition_inputs-Each from to token now b t v h =
      >>=-then (input_reservations (inputs_of id b) b.base) _ h λ rs found h.
        >>=-then (check_movable from to token now rs) _ h λ _ checked h.
          let movable = check_movable-IsMovable from to token now rs checked in
          (
            found-Each (IsReady from token now) (inputs_of id b) b.base rs found
                (All-map rs (λ r m. (m.0, m.1)) movable),
            subst (λ u. Each (HasStatus to) (inputs_of id b) u) (ok-injective h)
                (rewritten-Each (HasStatus to) (moved_input to now) (inputs_of id b) b.base b.base
                  rs v (λ r. moved_input_id to now r) found (all_to rs)),
          )
    where
      all_to : (qs : List NoteReservation) → All (HasStatus to) (map (moved_input to now) qs)
      all_to [] = tt
      all_to (q ∷ qs) = (moved_input_status to now q, all_to qs)

  -- Giving up the leases keeps the statuses.
  pub finish-Has :
      (now : ℕ) (op : BatchOperation) (s : MemoryStore) (b : BatchStore)
      (status : ReservationStatus) (j : String)
      → IsValid s
      → Has (HasStatus status) s j
      → Has (HasStatus status) (finish id now op s b).1.base j
  unfolding finish put_batch
  finish-Has now op s b status j v has =
      clear_input_leases-Has (HasStatus status) (inputs_of id b) now s j v (λ r k. k) has

  pub transition-IsValid :
      (from to : ReservationStatus) (token : String) (now : ℕ) (b : BatchStore) (t : MemoryStore)
      → IsValid b.base
      → is_active from ≡ true
      → is_active to ≡ true
      → transition_inputs id from to token now b ≡ ok t
      → IsValid t
  transition-IsValid from to token now b t v a a' h =
      Trail-IsValid
        (transition_inputs-Trail (λ j. Unit) id from to token now b t v (all_named (inputs_of id b))
          a a' h)
        v

  -- The operation is stored with its proof, and its inputs went from Proving to ProofReady.
  abbrev pub Saved :
      String → BatchProofArtifactUpdate → ℕ → BatchStore → BatchOperation → BatchStore → Type 0
  Saved token u now b op c =
      (lookup id c.batch_operations ≡ some op)
      × (op.status ≡ OperationStatus.proof_ready)
      × (op.proof_ciphertext ≡ u.proof_ciphertext)
      × (op.lease_token ≡ "")
      × Each (IsReady ReservationStatus.proving token now) (inputs_of id b) b.base
      × Each (HasStatus ReservationStatus.proof_ready) (inputs_of id b) c.base

  module _ (fold : ℕ → ℕ) where
    provable-parts :
        (token : String) (u : BatchProofArtifactUpdate) (now : ℕ) (b : BatchStore)
        (op : BatchOperation) (s : MemoryStore)
        → provable fold id token u now b ≡ ok (op, s)
        → (op.status ≡ OperationStatus.proof_ready)
          × (op.proof_ciphertext ≡ u.proof_ciphertext)
          × (transition_inputs id ReservationStatus.proving ReservationStatus.proof_ready token now
                b
              ≡ ok s)
    unfolding provable
    provable-parts token u now b op s h = >>=-then (require_batch_lease id token now b) _ h λ o _ h.
        >>=-then (guard (operation_status_eq o.status OperationStatus.proving) _) _ h λ _ _ h.
          >>=-then (guard (not (is_nil u.proof_ciphertext || is_blank u.proof_hash)) _) _ h λ _ _ h.
            >>=-then (payload_after fold o u) _ h λ paid _ h.
              >>=-then
                (transition_inputs id ReservationStatus.proving ReservationStatus.proof_ready token
                  now b)
                _ h
                λ t moves h.
                  let e = ok-injective h in
                  (
                    sym (ap (λ x. x.0.status) e),
                    sym (ap (λ x. x.0.proof_ciphertext) e),
                    moves ∙ ap (λ x. ok x.1) e,
                  )

    -- If `SaveBatchProofArtifacts` succeeds in a store with valid reservations, each input was Proving
    -- with a running lease of the token and is now ProofReady, and so is the operation, which is
    -- stored with the proof and without a lease; if it fails, nothing has changed.
    pub save_proof-Moves :
        (token : String) (u : BatchProofArtifactUpdate) (now : ℕ) (b : BatchStore)
        → IsValid b.base
        → let c = (save_proof fold id token u now b).1 in
          After (save_proof fold id token u now b).0 (λ op. Saved token u now b op c) (λ e. c ≡ b)
    unfolding save_proof finish put_batch clear_operation_lease is_active
    save_proof-Moves token u now b v = go (provable fold id token u now b) refl
      where
        go :
            (m : Result Error (BatchOperation × MemoryStore))
            → provable fold id token u now b ≡ m
            → let (r, c) = continue m (λ (op, s) t. finish id now op s t) b in
              After r (λ op. Saved token u now b op c) (λ e. c ≡ b)
        go (err e) h = refl
        go (ok (op, s)) h =
            let (status, proof, moves) = provable-parts token u now b op s h in
            let (before, after) =
              transition_inputs-Each ReservationStatus.proving ReservationStatus.proof_ready token
                now b s v moves in
            let valid =
              transition-IsValid ReservationStatus.proving ReservationStatus.proof_ready token now b
                s v refl refl moves in
            (
              rw (lookup-insert, str_eq_refl id) refl,
              status,
              proof,
              refl,
              before,
              All-map (inputs_of id b)
                  (λ i has.
                    finish-Has now op s b ReservationStatus.proof_ready i.reservation_id valid has)
                  after,
            )
