-- ===== src/Reservation/Batch/Trail.antt =====
-- batch_memory_store.go: the writes to reservations that a batch method may make, as the steps of a
-- trail.
use clairveil.Prelude.{
  String, true, ◌≡◌, ◌≢◌, ◌⊎◌, inl, inr, refl, sym, ◌∙◌, str_eq, str_eq_iff, arith, Bool-cases,
}
use clairveil.Prelude.Dict.{lookup}
use clairveil.Reservation.Status.{ReservationStatus, is_active}
use clairveil.Reservation.Types.{NoteReservation, active_key}
use clairveil.Reservation.Store.{MemoryStore, put_reservation}
use clairveil.Reservation.Invariant.{IsValid, Holds, IsFree, put-IsValid, lookup-put}
use clairveil.Reservation.Keeps.{rewrite-IsFree}
use clairveil.Reservation.Calls.Spent.{IsSpent, put-IsSpent}

-- How a status may change: not at all, or from an active one.
abbrev pub Drift : ReservationStatus → ReservationStatus → Type 0
Drift a b = (a ≡ b) ⊎ (is_active a ≡ true)

-- A reservation that is written: a spent one, or a new version of what is stored.
abbrev pub Writes : MemoryStore → NoteReservation → Type 0
Writes s r =
    (r.status ≡ ReservationStatus.confirmed_spent)
    ⊎ ((q : NoteReservation) × Holds s r.reservation_id q
        × (active_key r ≡ active_key q)
        × Drift q.status r.status)

-- A trail of writes, all to ids with P.
pub data Trail (P : String → Type 0) : MemoryStore → MemoryStore → Type 0 where
  stay : (s : MemoryStore) → Trail P s s
  write :
      {s t : MemoryStore} (r : NoteReservation)
      → P r.reservation_id
      → Writes s r
      → Trail P (put_reservation r s) t
      → Trail P s t

active-Drift : (a b : ReservationStatus) → Drift a b → is_active b ≡ true → is_active a ≡ true
active-Drift a b (inl e) h = rw e h
active-Drift a b (inr e) h = e

write-IsFree : (s : MemoryStore) (r : NoteReservation) → IsValid s → Writes s r → IsFree s r
unfolding is_active
write-IsFree s r v (inl spent) = λ act j e. absurd (cc (rw spent at act))
write-IsFree s r v (inr (q, at, key, drift)) =
    rewrite-IsFree s r.reservation_id q r v at (active-Drift q.status r.status drift)
      (sym (v.keyed r.reservation_id q at)) key

pub write-IsValid :
    (s : MemoryStore) (r : NoteReservation) → IsValid s → Writes s r → IsValid (put_reservation r s)
write-IsValid s r v w = put-IsValid s r v (write-IsFree s r v w)

spent-Drift :
    (a b : ReservationStatus)
    → Drift a b
    → a ≡ ReservationStatus.confirmed_spent
    → b ≡ ReservationStatus.confirmed_spent
unfolding is_active
spent-Drift a b (inl e) h = sym e ∙ h
spent-Drift a b (inr e) h = absurd (cc (rw h at e))

write-IsSpent :
    (s : MemoryStore) (id : String) (r : NoteReservation)
    → IsSpent s id
    → Writes s r
    → IsSpent (put_reservation r s) id
write-IsSpent s id r spent (inl e) = put-IsSpent s id spent r (λ same. e)
write-IsSpent s id r spent (inr (q, at, key, drift)) =
    put-IsSpent s id spent r λ same. spent-Drift q.status r.status drift (ground (arith, spent, at))

module _ {P : String → Type 0} where
  pub Trail-append : {s t u : MemoryStore} → Trail P s t → Trail P t u → Trail P s u
  Trail-append (Trail.stay s) q = q
  Trail-append (Trail.write r p w rest) q = Trail.write r p w (Trail-append rest q)

  pub Trail-IsValid : {s t : MemoryStore} → Trail P s t → IsValid s → IsValid t
  Trail-IsValid (Trail.stay s) v = v
  Trail-IsValid (Trail.write {s} r p w rest) v = Trail-IsValid rest (write-IsValid s r v w)

  pub Trail-IsSpent : {s t : MemoryStore} (id : String) → Trail P s t → IsSpent s id → IsSpent t id
  Trail-IsSpent id (Trail.stay s) spent = spent
  Trail-IsSpent id (Trail.write {s} r p w rest) spent =
      Trail-IsSpent id rest (write-IsSpent s id r spent w)

  -- Nothing that is stored gets lost.
  pub Trail-stored :
      {s t : MemoryStore} (id : String)
      → Trail P s t
      → (r : NoteReservation) × Holds s id r
      → (r : NoteReservation) × Holds t id r
  Trail-stored id (Trail.stay s) h = h
  Trail-stored id (Trail.write {s} r p w rest) h =
      Trail-stored id rest (elim (Bool-cases (str_eq r.reservation_id id)) [
        | inl same ↦ (r, rw (lookup-put, same) refl)
        | inr differ ↦ (h.0, rw (lookup-put, differ) h.1)
      ])

-- A trail of writes to other ids.
pub Trail-lookup :
    (j : String) {s t : MemoryStore}
    → Trail (λ id. id ≢ j) s t
    → lookup j t.reservations ≡ lookup j s.reservations
Trail-lookup j (Trail.stay s) = refl
Trail-lookup j (Trail.write {s} r n w rest) =
    ground (arith, Trail-lookup j rest, lookup-put s r j, str_eq_iff r.reservation_id j)
