-- ===== src/Reservation/Batch/Trails.antt =====
-- batch_memory_store.go: the writes to reservations of the helpers on the inputs, as trails.
use clairveil.Prelude.{
  String, true, ◌≡◌, ◌⊎◌, inl, inr, refl, sym, subst, ◌∙◌, List, [], ◌∷◌, map, All, str_eq,
  str_eq_iff, arith, Bool-cases,
}
use clairveil.Prelude.Result.{ok, >>=-then, ok-injective, or_fail}
use clairveil.Prelude.Dict.{lookup}
use clairveil.Reservation.Status.{ReservationStatus, is_active}
use clairveil.Reservation.Types.{NoteReservation, active_key}
use clairveil.Reservation.Store.{MemoryStore, put_reservation}
use clairveil.Reservation.Create.{put_reservations}
use clairveil.Reservation.Invariant.{IsValid, Holds, lookup-put}
use clairveil.Reservation.Batch.Types.{OperationInputReservation}
use clairveil.Reservation.Batch.Store.{input_reservations}
use clairveil.Reservation.Batch.Trail.{Trail, Drift}

-- Both the same, or both active.
abbrev pub Alike : ReservationStatus → ReservationStatus → Type 0
Alike a b = (a ≡ b) ⊎ ((is_active a ≡ true) × (is_active b ≡ true))

Alike-join : (a b c : ReservationStatus) → Alike a b → Alike a c → Alike b c
Alike-join a b c (inl e) (inl f) = inl (sym e ∙ f)
Alike-join a b c (inl e) (inr f) = inr (rw (← e) f.0, f.1)
Alike-join a b c (inr e) (inl f) = inr (e.1, rw (← f) e.0)
Alike-join a b c (inr e) (inr f) = inr (e.1, f.1)

Alike-Drift : (a b : ReservationStatus) → Alike a b → Drift a b
Alike-Drift a b (inl e) = inl e
Alike-Drift a b (inr e) = inr e.0

-- A change of a reservation that keeps its id and key.
abbrev pub Retains : (NoteReservation → NoteReservation) → Type 0
Retains f =
    (r : NoteReservation)
    → ((f r).reservation_id ≡ r.reservation_id) × (active_key (f r) ≡ active_key r)

module _ (P : String → Type 0) where
  abbrev pub Names : List OperationInputReservation → Type 0
  Names is = All (λ (i : OperationInputReservation). P i.reservation_id) is

  -- A new version of a stored reservation, with an id in P.
  abbrev IsVersion : MemoryStore → NoteReservation → Type 0
  IsVersion s r =
      P r.reservation_id
      × ((q : NoteReservation) × Holds s r.reservation_id q
          × (active_key r ≡ active_key q)
          × Alike q.status r.status)

  put-IsVersion :
      (s : MemoryStore) (r q : NoteReservation)
      → IsVersion s r
      → IsVersion s q
      → IsVersion (put_reservation r s) q
  put-IsVersion s r q (p, (x, at, key, alike)) (p', (y, at', key', alike')) =
      elim (Bool-cases (str_eq r.reservation_id q.reservation_id)) [
        | inl same ↦
            let one : x ≡ y = ground (arith, str_eq_iff r.reservation_id q.reservation_id) in
            (
              p',
              (
                r,
                rw (lookup-put, same) refl,
                cc (one, key, key'),
                Alike-join x.status r.status q.status alike (rw one alike'),
              ),
            )
        | inr differ ↦ (p', (y, rw (lookup-put, differ) at', key', alike'))
      ]

  put_versions-Trail :
      (rs : List NoteReservation) (s : MemoryStore)
      → All (IsVersion s) rs
      → Trail P s (put_reservations rs s)
  unfolding put_reservations
  put_versions-Trail [] s h = Trail.stay s
  put_versions-Trail (r ∷ rs) s ((p, (q, at, key, alike)), h) =
      Trail.write r p (inr (q, at, key, Alike-Drift q.status r.status alike))
        (put_versions-Trail rs (put_reservation r s) (later rs h))
    where
      later :
          (qs : List NoteReservation)
          → All (IsVersion s) qs
          → All (IsVersion (put_reservation r s)) qs
      later [] h = tt
      later (x ∷ xs) h = (put-IsVersion s r x (p, (q, at, key, alike)) h.0, later xs h.1)

  abbrev pub IsInput : MemoryStore → NoteReservation → Type 0
  IsInput s r = P r.reservation_id × Holds s r.reservation_id r

  pub held-IsInput :
      (s : MemoryStore) (id : String) (r : NoteReservation)
      → IsValid s
      → P id
      → Holds s id r
      → IsInput s r
  held-IsInput s id r v p at =
      let e = sym (v.keyed id r at) in (subst P e p, subst (λ j. Holds s j r) e at)

  pub input_reservations-IsInput :
      (is : List OperationInputReservation) (s : MemoryStore) (rs : List NoteReservation)
      → IsValid s
      → Names is
      → input_reservations is s ≡ ok rs
      → All (IsInput s) rs
  unfolding input_reservations
  input_reservations-IsInput [] s [] v p h = tt
  input_reservations-IsInput [] s (r ∷ rs) v p h = absurd (cc)
  input_reservations-IsInput (i ∷ is) s rs v p h =
      >>=-then (or_fail (lookup i.reservation_id s.reservations) _) _ h λ r found h.
        >>=-then (input_reservations is s) _ h λ rest more same.
          subst (λ l. All (IsInput s) l) (ok-injective same)
            (
              held-IsInput s i.reservation_id r v p.0 (ground arith),
              input_reservations-IsInput is s rest v p.1 more,
            )

  -- Inputs, rewritten to a status that is alike.
  pub rewrite-Trail :
      (f : NoteReservation → NoteReservation) (rs : List NoteReservation) (s : MemoryStore)
      → Retains f
      → All (IsInput s) rs
      → All (λ r. Alike r.status (f r).status) rs
      → Trail P s (put_reservations (map f rs) s)
  rewrite-Trail f rs s keep h a = put_versions-Trail (map f rs) s (go rs h a)
    where
      go :
          (qs : List NoteReservation)
          → All (IsInput s) qs
          → All (λ r. Alike r.status (f r).status) qs
          → All (IsVersion s) (map f qs)
      go [] h a = tt
      go (r ∷ qs) h a =
          let (id, key) = keep r in
          (
            (subst P (sym id) h.0.0, (r, subst (λ j. Holds s j r) (sym id) h.0.1, key, a.0)),
            go qs h.1 a.1,
          )
