-- ===== src/Reservation/Calls/SpentRuns.antt =====
-- memory_store.go: each call on a store with a spent reservation, and runs of calls.
use clairveil.Prelude.{
  ℕ, String, Bool, true, false, ◌≡◌, ◌≢◌, refl, sym, ◌∙◌, Option, none, some, List, [], ◌∷◌, map,
  All, All-map, arith, Bool-cases, inl, inr,
}
use clairveil.Prelude.Result.{Result, ok, err, >>=-eq-ok}
use clairveil.Prelude.Exec.{continue}
use clairveil.Prelude.Dict.{contains, lookup}
use clairveil.Reservation.Status.{ReservationStatus, requires_lease_token}
use clairveil.Reservation.Types.{
  Error, NoteReservation, PayrollOperation, SubmittedReservationRef, ProofReadyOperationUpdate,
}
use clairveil.Reservation.Store.{MemoryStore, put_operation}
use clairveil.Reservation.Transition.{
  transitioned, candidate, check_lease, compare_and_set, compare_and_set_locked,
  compare_and_set_with_lease, candidate_with_operation, commit_with_operation, put_operation_if,
  compare_and_set_with_operation, update_operation,
}
use clairveil.Reservation.Lease.{
  leased, renewed, unleased, check_status, acquire_lease_locked, heartbeat_lease,
  heartbeat_lease_for_status, clear_lease,
}
use clairveil.Reservation.Create.{
  validate_batch, put_reservations, put_operations, create_reservation_batch, create_operation,
  validate_operation_create,
}
use clairveil.Reservation.Marks.{
  load_marked, write_marked, mark_broadcast, load_proof_ready, write_proof_ready, mark_proof_ready,
  proof_ready,
}
use clairveil.Reservation.Invariant.{IsValid}
use clairveil.Reservation.Keeps.{candidate_with_operation-eq-ok}
use clairveil.Reservation.Keeps.Leases.{acquirable-Holds, held-Holds, renewable-held}
use clairveil.Reservation.Keeps.Batches.{IsFound, load_marked-IsFound, load_proof_ready-IsFound}
use clairveil.Reservation.Keeps.Creation.{validate_batch-eq-ok}
use clairveil.Reservation.Calls.Spent.{
  IsSpent, found-spent, put-IsSpent, commit-IsSpent, transition-IsSpent, put_reservations-IsSpent,
  put_operations-IsSpent, validate_reservations-absent,
}

module _ (s : MemoryStore) (id : String) (v : IsValid s) (spent : IsSpent s id) where
  pub compare_and_set_locked-IsSpent :
      (j : String) (from to : ReservationStatus) (now : ℕ)
      → IsSpent (compare_and_set_locked j from to now s).1 id
  unfolding compare_and_set_locked
  compare_and_set_locked-IsSpent j from to now =
      commit-IsSpent s id spent (transitioned to now) (candidate j from to s)
        (λ r h. transition-IsSpent s id spent j from to now r v h)

  pub compare_and_set-IsSpent :
      (j : String) (from to : ReservationStatus) (now : ℕ)
      → IsSpent (compare_and_set j from to now s).1 id
  unfolding compare_and_set
  compare_and_set-IsSpent j from to now = elim (Bool-cases (requires_lease_token from to)) [
    | inl t ↦ rw t spent
    | inr f ↦ rw f (compare_and_set_locked-IsSpent j from to now)
  ]

  pub compare_and_set_with_lease-IsSpent :
      (j token : String) (from to : ReservationStatus) (now : ℕ)
      → IsSpent (compare_and_set_with_lease j token from to now s).1 id
  unfolding compare_and_set_with_lease
  compare_and_set_with_lease-IsSpent j token from to now =
      commit-IsSpent s id spent (transitioned to now) _ λ r h.
        let (_, _, found) = >>=-eq-ok (check_lease j token now s) _ h in
        transition-IsSpent s id spent j from to now r v found

  pub put_operation_if-IsSpent :
      (o : Option PayrollOperation) (t : MemoryStore)
      → IsSpent t id
      → IsSpent (put_operation_if o t) id
  unfolding put_operation_if put_operation
  put_operation_if-IsSpent none t h = h
  put_operation_if-IsSpent (some o) t h = h

  pub compare_and_set_with_operation-IsSpent :
      (j : String) (from to : ReservationStatus) (o : Option PayrollOperation) (now : ℕ)
      → IsSpent (compare_and_set_with_operation j from to o now s).1 id
  unfolding compare_and_set_with_operation commit_with_operation
  compare_and_set_with_operation-IsSpent j from to o now =
      go (candidate_with_operation j from to o s) refl
    where
      go :
          (m : Result Error (NoteReservation × Option PayrollOperation))
          → candidate_with_operation j from to o s ≡ m
          → IsSpent (commit_with_operation to now m s).1 id
      go (err x) e = spent
      go (ok (r, update)) e = put_operation_if-IsSpent update _ (
          put-IsSpent s id spent (transitioned to now r) (
            transition-IsSpent s id spent j from to now r v
              (candidate_with_operation-eq-ok j from to o s r update e)))

  pub acquire_lease_locked-IsSpent :
      (j owner token : String) (required : ReservationStatus) (until now : ℕ)
      → IsSpent (acquire_lease_locked j owner token required until now s).1 id
  unfolding acquire_lease_locked leased
  acquire_lease_locked-IsSpent j owner token required until now =
      commit-IsSpent s id spent (leased owner token until now) _ λ r h.
        found-spent s id spent j r v (acquirable-Holds j owner token required until now s r h)

  pub heartbeat_lease-IsSpent :
      (j token : String) (until now : ℕ) → IsSpent (heartbeat_lease j token until now s).1 id
  unfolding heartbeat_lease renewed
  heartbeat_lease-IsSpent j token until now = commit-IsSpent s id spent (renewed until now) _ λ r h.
      found-spent s id spent j r v
        (held-Holds j token now s r (renewable-held j token until now s r h))

  pub heartbeat_lease_for_status-IsSpent :
      (j token : String) (required : ReservationStatus) (until now : ℕ)
      → IsSpent (heartbeat_lease_for_status j token required until now s).1 id
  unfolding heartbeat_lease_for_status renewed
  heartbeat_lease_for_status-IsSpent j token required until now =
      commit-IsSpent s id spent (renewed until now) _ λ r h.
        let (_, _, found) = >>=-eq-ok (check_status j required s) _ h in
        found-spent s id spent j r v
          (held-Holds j token now s r (renewable-held j token until now s r found))

  pub clear_lease-IsSpent : (j token : String) (now : ℕ) → IsSpent (clear_lease j token now s).1 id
  unfolding clear_lease unleased
  clear_lease-IsSpent j token now =
      commit-IsSpent s id spent (unleased now) _
        λ r h. found-spent s id spent j r v (held-Holds j token now s r h)

  -- A batch is found in a status that is not `ConfirmedSpent`, so the spent one is not in it.
  found-others :
      (status : ReservationStatus) (f : NoteReservation → NoteReservation)
      (rs : List NoteReservation)
      → status ≢ ReservationStatus.confirmed_spent
      → ((r : NoteReservation) → (f r).reservation_id ≡ r.reservation_id)
      → All (IsFound s status) rs
      → All (λ r. r.reservation_id ≢ id) (map f rs)
  found-others status f [] n ids h = tt
  found-others status f (r ∷ rs) n ids h = (
    λ e. n (sym h.0.1 ∙ found-spent s id spent r.reservation_id r v h.0.0 (sym (ids r) ∙ e)),
    found-others status f rs n ids h.1,
  )

  pub mark_broadcast-IsSpent :
      (f : NoteReservation → NoteReservation) (g : PayrollOperation → PayrollOperation)
      (identified : Bool) (refs : List SubmittedReservationRef) (ids : List String) (now : ℕ)
      → ((r : NoteReservation) → (f r).reservation_id ≡ r.reservation_id)
      → IsSpent (mark_broadcast f g identified refs ids now s).1 id
  unfolding mark_broadcast
  mark_broadcast-IsSpent f g identified [] ids now keep = spent
  mark_broadcast-IsSpent f g false (ref ∷ refs) ids now keep = spent
  mark_broadcast-IsSpent f g true (ref ∷ refs) ids now keep =
      go (load_marked (ref ∷ refs) ids now s) refl
    where
      go :
          (m : Result Error (List NoteReservation × List PayrollOperation))
          → load_marked (ref ∷ refs) ids now s ≡ m
          → IsSpent (continue m (write_marked f g) s).1 id
      go (err x) e = spent
      go (ok (rs, os)) e = put_operations-IsSpent (map g os) _ id (
          put_reservations-IsSpent (map f rs) s id
            (found-others ReservationStatus.proof_ready f rs (λ x. cc) keep
              (load_marked-IsFound (ref ∷ refs) ids now s rs os v e))
            spent)

  pub mark_proof_ready-IsSpent :
      (refs : List SubmittedReservationRef) (u : ProofReadyOperationUpdate) (now : ℕ)
      → IsSpent (mark_proof_ready refs u now s).1 id
  unfolding mark_proof_ready proof_ready
  mark_proof_ready-IsSpent refs u now = go (load_proof_ready refs u now s) refl
    where
      go :
          (m : Result Error (List NoteReservation × Option PayrollOperation))
          → load_proof_ready refs u now s ≡ m
          → IsSpent (continue m (write_proof_ready now) s).1 id
      go (err x) e = spent
      go (ok (rs, o)) e = put_operation_if-IsSpent o _ (
          put_reservations-IsSpent (map (proof_ready now) rs) s id
            (found-others ReservationStatus.proving (proof_ready now) rs (λ x. cc) (λ r. refl)
              (load_proof_ready-IsFound refs u now s rs o v e))
            spent)

  absent-others :
      (rs : List NoteReservation)
      → All (λ r. lookup r.reservation_id s.reservations ≡ none) rs
      → All (λ r. r.reservation_id ≢ id) rs
  absent-others rs h = All-map rs (λ r n e. let at = spent.1 in ground arith) h

  pub create_reservation_batch-IsSpent :
      (rs : List NoteReservation) (os : List PayrollOperation)
      → IsSpent (create_reservation_batch rs os s).1 id
  unfolding create_reservation_batch
  create_reservation_batch-IsSpent [] os = spent
  create_reservation_batch-IsSpent (r ∷ rs) os = go (validate_batch (r ∷ rs) os s) refl
    where
      go :
          (m : Result Error Unit)
          → validate_batch (r ∷ rs) os s ≡ m
          → IsSpent
              (continue m
                (λ _ t. (ok (r ∷ rs), put_operations os (put_reservations (r ∷ rs) t)))
                s).1
              id
      go (err e) h = spent
      go (ok tt) h = put_operations-IsSpent os _ id (
          put_reservations-IsSpent (r ∷ rs) s id
            (absent-others (r ∷ rs) (
              validate_reservations-absent (r ∷ rs) [] [] s (validate_batch-eq-ok (r ∷ rs) os s h)))
            spent)

  pub create_operation-IsSpent : (o : PayrollOperation) → IsSpent (create_operation o s).1 id
  unfolding create_operation put_operation
  create_operation-IsSpent o = go (validate_operation_create o [] s)
    where
      go : (m : Result Error Unit) → IsSpent (continue m (λ _ t. (ok o, put_operation o t)) s).1 id
      go (ok tt) = spent
      go (err e) = spent

  pub update_operation-IsSpent : (o : PayrollOperation) → IsSpent (update_operation o s).1 id
  unfolding update_operation put_operation
  update_operation-IsSpent o = elim (Bool-cases (contains o.operation_id s.operations)) [
    | inl known ↦ rw known spent
    | inr missing ↦ rw missing spent
  ]
