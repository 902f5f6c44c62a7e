-- ===== src/Reservation/Service/Effects.antt =====
-- service.go: what `ReserveBatch` leaves in its store.
use clairveil.Prelude.{
  ℕ, ◌≡◌, ◌≢◌, refl, sym, subst, Option, some, List, [], ◌∷◌, All, str_eq_iff, arith,
}
use clairveil.Prelude.Result.{Result, ok, err, After, >>=-eq-ok, ok-injective}
use clairveil.Prelude.Exec.{continue}
use clairveil.Reservation.Status.{ReservationStatus}
use clairveil.Reservation.Types.{Error, NoteReservation, PayrollOperation}
use clairveil.Reservation.Store.{MemoryStore}
use clairveil.Reservation.Create.{create_reservation_batch}
use clairveil.Reservation.Create.Effects.{WasFree, create_reservation_batch-Creates}
use clairveil.Reservation.Invariant.{Holds}
use clairveil.Reservation.Service.{
  ReserveInput, normalize_reserve_input, normalize_all, prepare_batch, reserve_prepared,
  reserve_batch,
}

-- A reservation as `normalizeReserveInput` leaves it.
pub record IsReserved (r : NoteReservation) : Type 0 where
  pub status : r.status ≡ ReservationStatus.reserved
  pub has_id : r.reservation_id ≢ ""
  pub has_owner : r.owner_key_id ≢ ""
  pub has_key : r.nullifier_lookup_key ≢ ""

normalize-IsReserved :
    (input : ReserveInput) (now : ℕ) (r : NoteReservation) (o : Option PayrollOperation)
    → normalize_reserve_input input now ≡ ok (r, o)
    → IsReserved r
unfolding normalize_reserve_input
normalize-IsReserved input now r o h = ground (
  arith,
  str_eq_iff input.reservation.reservation_id "",
  str_eq_iff input.reservation.owner_key_id "",
  str_eq_iff input.reservation.nullifier_lookup_key "",
)

normalize_all-IsReserved :
    (inputs : List ReserveInput) (now : ℕ) (rs : List NoteReservation) (os : List PayrollOperation)
    → normalize_all inputs now ≡ ok (rs, os)
    → All IsReserved rs
unfolding normalize_all
normalize_all-IsReserved [] now rs os h =
    subst (λ (p : List NoteReservation × List PayrollOperation). All IsReserved p.0)
      (ok-injective h) tt
normalize_all-IsReserved (input ∷ inputs) now rs os h =
    let ((r, o), e, h') = >>=-eq-ok (normalize_reserve_input input now) _ h in
    let ((qs, ps), more, same) = >>=-eq-ok (normalize_all inputs now) _ h' in
    subst (λ (p : List NoteReservation × List PayrollOperation). All IsReserved p.0)
      (ok-injective same)
      (normalize-IsReserved input now r o e, normalize_all-IsReserved inputs now qs ps more)

prepare_batch-eq-ok :
    (inputs : List ReserveInput) (now : ℕ) (s : MemoryStore) (rs : List NoteReservation)
    (os : List PayrollOperation)
    → prepare_batch inputs now s ≡ ok (rs, os)
    → normalize_all inputs now ≡ ok (rs, os)
unfolding prepare_batch
prepare_batch-eq-ok inputs now s rs os h = ground arith

All-zip :
    (rs : List NoteReservation) (P Q : NoteReservation → Type 0)
    → All P rs
    → All Q rs
    → All (λ r. P r × Q r) rs
All-zip [] P Q p q = tt
All-zip (r ∷ rs) P Q p q = ((p.0, q.0), All-zip rs P Q p.1 q.1)

-- What a caller of the service may rely on, of one reservation.
abbrev pub IsSecured : MemoryStore → MemoryStore → NoteReservation → Type 0
IsSecured s t r = IsReserved r × (WasFree s r × Holds t r.reservation_id r)

Secures : MemoryStore → Result Error (List NoteReservation) → MemoryStore → Type 0
Secures s result t = After result (λ created. All (λ r. IsSecured s t r) created) (λ e. t ≡ s)

created-Secures :
    (rs : List NoteReservation) (os : List PayrollOperation) (s : MemoryStore)
    → All IsReserved rs
    → let (result, t) = create_reservation_batch rs os s in Secures s result t
unfolding Secures
created-Secures rs os s h =
    go (create_reservation_batch rs os s).0 (create_reservation_batch-Creates rs os s)
  where
    go :
        (result : Result Error (List NoteReservation))
        → let t = (create_reservation_batch rs os s).1 in
          After result
            (λ created. (created ≡ rs) × All (λ r. WasFree s r × Holds t r.reservation_id r) rs)
            (λ e. t ≡ s)
          → Secures s result t
    go (ok created) (same, stored) =
        subst (All (λ r. IsSecured s (create_reservation_batch rs os s).1 r)) (sym same)
          (All-zip rs IsReserved _ h stored)
    go (err e) kept = kept

prepared-Secures :
    (inputs : List ReserveInput) (now : ℕ) (s : MemoryStore)
    → let (result, t) = reserve_prepared inputs now s in Secures s result t
unfolding reserve_prepared Secures
prepared-Secures inputs now s = go (prepare_batch inputs now s) refl
  where
    go :
        (m : Result Error (List NoteReservation × List PayrollOperation))
        → prepare_batch inputs now s ≡ m
        → let (result, t) =
            continue m
              (λ (p : List NoteReservation × List PayrollOperation).
                create_reservation_batch p.0 p.1)
              s in
          Secures s result t
    go (err e) h = refl
    go (ok (rs, os)) h =
        created-Secures rs os s
          (normalize_all-IsReserved inputs now rs os (prepare_batch-eq-ok inputs now s rs os h))

-- If `ReserveBatch` succeeds, each reservation that it returns is `Reserved`, has an id, an owner key and a
-- nullifier key, is stored under its id, and its id and key were free before; if it fails, its store is as
-- it was.
pub reserve_batch-IsSecured :
    (inputs : List ReserveInput) (now : ℕ) (s : MemoryStore)
    → (t : MemoryStore) × ((reserve_batch inputs now (some s)).1 ≡ some t)
      × After
          (reserve_batch inputs now (some s)).0
          (λ created. All (λ r. IsSecured s t r) created)
          (λ e. t ≡ s)
unfolding reserve_batch Secures
reserve_batch-IsSecured [] now s = (s, refl, tt)
reserve_batch-IsSecured (input ∷ inputs) now s =
    ((reserve_prepared (input ∷ inputs) now s).1, refl, prepared-Secures (input ∷ inputs) now s)
