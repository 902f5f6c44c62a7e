-- ===== src/Reservation/Marks/Effects.antt =====
-- memory_store.go: what marking a batch of leased reservations as submitted leaves in the store.
use clairveil.Prelude.{
  ℕ, String, Bool, true, false, ◌≡◌, inl, inr, refl, sym, ap, subst, ◌∙◌, List, [], ◌∷◌, map, All,
  arith, Bool-cases,
}
use clairveil.Prelude.Result.{Result, ok, err, guard, After, ◌>>◌}
use clairveil.Prelude.Exec.{continue}
use clairveil.Prelude.Dict.{lookup}
use clairveil.Reservation.Status.{ReservationStatus}
use clairveil.Reservation.Types.{
  Error, NoteReservation, PayrollOperation, SubmittedReservationRef, SubmittedReservationUpdate,
}
use clairveil.Reservation.Store.{MemoryStore}
use clairveil.Reservation.Create.{put_reservations, put_operations}
use clairveil.Reservation.Create.Effects.{put_operations-reservations}
use clairveil.Reservation.Links.{validate_leased, has_operation_id}
use clairveil.Reservation.Marks.{
  submitted, submitted_operation, has_tx_identity, load_marked, write_marked, mark_broadcast,
  mark_submitted,
}
use clairveil.Reservation.Invariant.{IsValid, Holds}
use clairveil.Reservation.Marks.Submitted.{
  IsSubmitted, submitted-IsSubmitted, IsSubmittedOperation, submitted_operations,
}
use clairveil.Reservation.Marks.Written.{Leads, Pairs, Pairs-map, Marked, written-Marked}

load_marked-eq-ok :
    (refs : List SubmittedReservationRef) (ids : List String) (now : ℕ) (s : MemoryStore)
    (rs : List NoteReservation) (os : List PayrollOperation)
    → load_marked refs ids now s ≡ ok (rs, os)
    → validate_leased refs ReservationStatus.proof_ready now [] s ≡ ok rs
unfolding load_marked
load_marked-eq-ok refs ids now s rs os h = ground arith

submitted_keep :
    (u : SubmittedReservationUpdate) (now : ℕ) (r : NoteReservation)
    → (submitted u now r).reservation_id ≡ r.reservation_id
unfolding submitted
submitted_keep u now r = refl

-- The two lists are what is written to reservations that the references lead to, and to operations.
abbrev Writes :
    List SubmittedReservationRef
    → SubmittedReservationUpdate
    → ℕ
    → MemoryStore
    → MemoryStore
    → List NoteReservation × List PayrollOperation
    → Type 0
Writes refs u now s t (marked, operations) =
    (rs : List NoteReservation) × (os : List PayrollOperation) × (marked ≡ map (submitted u now) rs)
    × (operations ≡ map (submitted_operation u now) os)
    × Pairs (Marked s ReservationStatus.proof_ready now (submitted u now) t) refs rs

-- What is written to the reservations, from those that the references lead to.
mark_submitted-written :
    (refs : List SubmittedReservationRef) (ids : List String) (u : SubmittedReservationUpdate)
    (now : ℕ) (s : MemoryStore)
    → IsValid s
    → let (result, t) = mark_submitted refs ids u now s in
      After result (Writes refs u now s t) (λ e. t ≡ s)
unfolding mark_submitted mark_broadcast
mark_submitted-written [] ids u now s v = elim (Bool-cases (has_operation_id ids)) [
  | inl named ↦ rw named refl
  | inr none_named ↦ rw none_named ([], [], refl, refl, tt)
]
mark_submitted-written (ref ∷ refs) ids u now s v =
    go (has_tx_identity u.tx_hash u.tx_bytes_hash u.sign_doc_hash)
      (load_marked (ref ∷ refs) ids now s) refl
  where
    go :
        (identified : Bool) (m : Result Error (List NoteReservation × List PayrollOperation))
        → load_marked (ref ∷ refs) ids now s ≡ m
        → let (result, t) =
            continue
              (guard identified Error.invalid_reservation >> m)
              (write_marked (submitted u now) (submitted_operation u now))
              s in
          After result (Writes (ref ∷ refs) u now s t) (λ e. t ≡ s)
    go false m h = refl
    go true (err x) h = refl
    go true (ok (rs, os)) h =
        unfold write_marked in
        (
          rs,
          os,
          refl,
          refl,
          Pairs-map (ref ∷ refs) rs (λ q r. under_operations os (submitted u now) q r)
              (written-Marked s v ReservationStatus.proof_ready now (submitted u now)
                (submitted_keep u now) (ref ∷ refs) rs
                (load_marked-eq-ok (ref ∷ refs) ids now s rs os h)),
        )
      where
        under_operations :
            (os : List PayrollOperation) (f : NoteReservation → NoteReservation)
            (q : SubmittedReservationRef) (r : NoteReservation)
            → Marked s ReservationStatus.proof_ready now f (put_reservations (map f rs) s) q r
            → Marked s ReservationStatus.proof_ready now f
                (put_operations
                  (map (submitted_operation u now) os)
                  (put_reservations (map f rs) s))
                q
                r
        under_operations os f q r (leads, at) = (
          leads,
          ap (lookup q.reservation_id) (
                put_operations-reservations (map (submitted_operation u now) os)
                  (put_reservations (map f rs) s))
              ∙ at,
        )

-- The reference led to a reservation of `s`, and `t` holds the new one, which is that one submitted.
abbrev pub Submits :
    MemoryStore
    → SubmittedReservationUpdate
    → ℕ
    → MemoryStore
    → SubmittedReservationRef
    → NoteReservation
    → Type 0
Submits s u now t ref new =
    Holds t ref.reservation_id new
    × ((old : NoteReservation) × Leads s ReservationStatus.proof_ready now ref old
        × IsSubmitted u now old new)

Submits-map :
    (s t : MemoryStore) (u : SubmittedReservationUpdate) (now : ℕ)
    (refs : List SubmittedReservationRef) (rs : List NoteReservation)
    → Pairs (Marked s ReservationStatus.proof_ready now (submitted u now) t) refs rs
    → Pairs (Submits s u now t) refs (map (submitted u now) rs)
Submits-map s t u now [] [] h = tt
Submits-map s t u now [] (r ∷ rs) h = h
Submits-map s t u now (ref ∷ refs) [] h = h
Submits-map s t u now (ref ∷ refs) (r ∷ rs) h =
    ((h.0.1, (r, h.0.0, submitted-IsSubmitted u now r)), Submits-map s t u now refs rs h.1)

-- `MarkReservationsSubmitted` is all or nothing. If it succeeds on a valid store, each reference named a
-- `ProofReady` reservation and the token of its running lease, and there is one returned reservation for
-- each, stored under its id: the old one as Submitted, with the transaction's hashes and the account
-- sequence of the update, one more broadcast attempt, made now, no lease, and otherwise as it was. Each
-- returned operation is Submitted with the same hashes. If the call fails it changes nothing.
pub mark_submitted-Marked :
    (refs : List SubmittedReservationRef) (ids : List String) (u : SubmittedReservationUpdate)
    (now : ℕ) (s : MemoryStore)
    → IsValid s
    → let (result, t) = mark_submitted refs ids u now s in
      After result
        (λ (marked, operations).
          Pairs (Submits s u now t) refs marked × All (IsSubmittedOperation u now) operations)
        (λ e. t ≡ s)
mark_submitted-Marked refs ids u now s v =
    go (mark_submitted refs ids u now s) (mark_submitted-written refs ids u now s v)
  where
    go :
        (m : Result Error (List NoteReservation × List PayrollOperation) × MemoryStore)
        → After m.0 (Writes refs u now s m.1) (λ e. m.1 ≡ s)
        → After m.0
            (λ (marked, operations).
              Pairs (Submits s u now m.1) refs marked × All (IsSubmittedOperation u now) operations)
            (λ e. m.1 ≡ s)
    go (err e, t) h = h
    go (ok (marked, operations), t) (rs, os, e, f, h) = (
      subst (Pairs (Submits s u now t) refs) (sym e) (Submits-map s t u now refs rs h),
      subst (All (IsSubmittedOperation u now)) (sym f) (submitted_operations u now os),
    )
