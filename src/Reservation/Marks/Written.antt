-- ===== src/Reservation/Marks/Written.antt =====
-- memory_store.go: the reservations that a batch of references leads to, and what is written to them.
use clairveil.Prelude.{
  ℕ, String, ◌≡◌, ◌≢◌, sym, subst, ◌∙◌, none, some, List, [], ◌∷◌, map, All, str_eq_iff, arith,
}
use clairveil.Prelude.Result.{ok, >>=-eq-ok, ok-injective}
use clairveil.Prelude.Dict.{StringSet, lookup, insert, contains, lookup-insert}
use clairveil.Reservation.Status.{ReservationStatus}
use clairveil.Reservation.Status.Laws.{status_eq-true}
use clairveil.Reservation.Types.{NoteReservation, SubmittedReservationRef}
use clairveil.Reservation.Store.{MemoryStore, put_reservation}
use clairveil.Reservation.Create.{put_reservations}
use clairveil.Reservation.Create.Effects.{put_reservations-others}
use clairveil.Reservation.Links.{validate_ref, validate_leased}
use clairveil.Reservation.Lease.Exclusion.{IsLeased, require_lease_token-eq-ok}
use clairveil.Reservation.Invariant.{IsValid, Holds, lookup-put}

-- The reference names a stored reservation in that status, and the token of its running lease.
pub record Leads (s : MemoryStore) (status : ReservationStatus) (now : ℕ)
    (ref : SubmittedReservationRef) (r : NoteReservation) : Type 0 where
  pub found : Holds s ref.reservation_id r
  pub named : r.reservation_id ≡ ref.reservation_id
  pub in_status : r.status ≡ status
  pub token : ref.lease_token ≡ r.lease_token
  pub leased : IsLeased r now

-- Two lists agree in length, and the relation holds of them in pairs.
abbrev pub Pairs : {A B : Type 0} → (A → B → Type 0) → List A → List B → Type 0
Pairs R [] [] = Unit
Pairs R [] (b ∷ bs) = ⊥
Pairs R (a ∷ l) [] = ⊥
Pairs R (a ∷ l) (b ∷ bs) = R a b × Pairs R l bs

pub Pairs-map :
    {A B : Type 0} {R S : A → B → Type 0} (l : List A) (bs : List B)
    → ((a : A) (b : B) → R a b → S a b)
    → Pairs R l bs
    → Pairs S l bs
Pairs-map [] [] f h = tt
Pairs-map [] (b ∷ bs) f h = h
Pairs-map (a ∷ l) [] f h = h
Pairs-map (a ∷ l) (b ∷ bs) f h = (f a b h.0, Pairs-map l bs f h.1)

-- The reference leads to a reservation of `s`, of which `t` holds what `f` makes.
abbrev pub Marked :
    MemoryStore
    → ReservationStatus
    → ℕ
    → (NoteReservation → NoteReservation)
    → MemoryStore
    → SubmittedReservationRef
    → NoteReservation
    → Type 0
Marked s status now f t ref r = Leads s status now ref r × Holds t ref.reservation_id (f r)

module _ (s : MemoryStore) (v : IsValid s) (status : ReservationStatus) (now : ℕ) where
  validate_ref-Leads :
      (ref : SubmittedReservationRef) (seen : StringSet) (r : NoteReservation)
      → validate_ref ref status now seen s ≡ ok r
      → Leads s status now ref r × (lookup ref.reservation_id seen ≡ none)
  unfolding validate_ref contains
  validate_ref-Leads ref seen r h =
      let at : Holds s ref.reservation_id r = ground arith in
      let (same, leased) = require_lease_token-eq-ok r ref.lease_token now (ground arith) in
      (
        record {
          found = at;
          named = v.keyed ref.reservation_id r at;
          in_status = status_eq-true r.status status (ground arith);
          token = same;
          leased = leased;
        },
        ground arith,
      )

  module _ (f : NoteReservation → NoteReservation)
      (keep : (r : NoteReservation) → (f r).reservation_id ≡ r.reservation_id) where
    -- What `f` makes of the reservations ends at the ids of the references, and at no id seen before.
    Written : List SubmittedReservationRef → StringSet → MemoryStore → List NoteReservation → Type 0
    Written refs seen t rs =
        Pairs (Marked s status now f (put_reservations (map f rs) t)) refs rs
        × ((j : String) → lookup j seen ≡ some tt → All (λ r. r.reservation_id ≢ j) (map f rs))

    written :
        (refs : List SubmittedReservationRef) (seen : StringSet) (t : MemoryStore)
        (rs : List NoteReservation)
        → validate_leased refs status now seen s ≡ ok rs
        → Written refs seen t rs
    unfolding Written validate_leased put_reservations
    written [] seen t [] h = (tt, λ j p. tt)
    written [] seen t (r ∷ rs) h = absurd (cc)
    written (ref ∷ refs) seen t rs h =
        let (r, checked, h') = >>=-eq-ok (validate_ref ref status now seen s) _ h in
        let (leads, unseen) = validate_ref-Leads ref seen r checked in
        let seen' = insert ref.reservation_id tt seen in
        let (rest, more, same) = >>=-eq-ok (validate_leased refs status now seen' s) _ h' in
        let (marked, others) = written refs seen' (put_reservation (f r) t) rest more in
        let id : (f r).reservation_id ≡ ref.reservation_id = keep r ∙ leads.named in
        let now_seen : lookup ref.reservation_id seen' ≡ some tt = ground (
          arith,
          lookup-insert ref.reservation_id ref.reservation_id tt seen,
          str_eq_iff ref.reservation_id ref.reservation_id,
        ) in
        let at : Holds (put_reservation (f r) t) ref.reservation_id (f r) = ground (
          arith,
          lookup-put t (f r) ref.reservation_id,
          str_eq_iff (f r).reservation_id ref.reservation_id,
        ) in
        subst (Written (ref ∷ refs) seen t) (ok-injective same) (
          (
            (
              leads,
              put_reservations-others (map f rest) ref.reservation_id (put_reservation (f r) t)
                    (others ref.reservation_id now_seen)
                  ∙ at,
            ),
            marked,
          ),
          λ j p. (
            λ e. ground (arith, unseen, p, subst (λ i. lookup i seen ≡ some tt) (sym e ∙ id) p),
            others j (ground (arith, lookup-insert ref.reservation_id j tt seen)),
          ),
        )

    -- What `f` makes of the reservations is stored under the ids of the references.
    pub written-Marked :
        (refs : List SubmittedReservationRef) (rs : List NoteReservation)
        → validate_leased refs status now [] s ≡ ok rs
        → Pairs (Marked s status now f (put_reservations (map f rs) s)) refs rs
    unfolding Written
    written-Marked refs rs h = (written refs [] s rs h).0
