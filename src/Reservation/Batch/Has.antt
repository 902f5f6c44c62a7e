-- ===== src/Reservation/Batch/Has.antt =====
-- batch_memory_store.go: what the loops over the inputs leave under the inputs' ids.
use clairveil.Prelude.{
  ℕ, String, ◌≡◌, inl, inr, refl, sym, subst, ◌∙◌, Option, none, some, List, [], ◌∷◌, map, All,
  All-map, str_eq, str_eq_iff, arith, Bool-cases,
}
use clairveil.Prelude.Result.{ok, or_fail, >>=-then, ok-injective}
use clairveil.Prelude.Dict.{lookup}
use clairveil.Reservation.Types.{NoteReservation, active_key}
use clairveil.Reservation.Store.{MemoryStore, put_reservation, clear_lease_fields}
use clairveil.Reservation.Create.{put_reservations}
use clairveil.Reservation.Invariant.{IsValid, Holds, lookup-put}
use clairveil.Reservation.Batch.Types.{OperationInputReservation}
use clairveil.Reservation.Batch.Store.{input_reservations, clear_found, clear_input_leases}
use clairveil.Reservation.Batch.Trail.{write-IsValid}

-- A reservation with Q is stored under the id.
abbrev pub Has : (NoteReservation → Type 0) → MemoryStore → String → Type 0
Has Q s id = (r : NoteReservation) × Holds s id r × Q r

abbrev pub Each : (NoteReservation → Type 0) → List OperationInputReservation → MemoryStore → Type 0
Each Q is s = All (λ (i : OperationInputReservation). Has Q s i.reservation_id) is

module _ (Q : NoteReservation → Type 0) where
  put-Has :
      (s : MemoryStore) (r : NoteReservation) (j : String)
      → (r.reservation_id ≡ j → Q r)
      → Has Q s j
      → Has Q (put_reservation r s) j
  put-Has s r j h (q, at, k) = elim (Bool-cases (str_eq r.reservation_id j)) [
    | inl same ↦ (r, rw (lookup-put, same) refl, h ((str_eq_iff r.reservation_id j).0 same))
    | inr differ ↦ (q, rw (lookup-put, differ) at, k)
  ]

  own-Has :
      (s : MemoryStore) (r : NoteReservation) → Q r → Has Q (put_reservation r s) r.reservation_id
  own-Has s r h = (
    r,
    ground (arith, lookup-put s r r.reservation_id, str_eq_iff r.reservation_id r.reservation_id),
    h,
  )

  -- Writes that have Q if they are to the id.
  pub put_reservations-Has :
      (rs : List NoteReservation) (s : MemoryStore) (j : String)
      → All (λ r. r.reservation_id ≡ j → Q r) rs
      → Has Q s j
      → Has Q (put_reservations rs s) j
  unfolding put_reservations
  put_reservations-Has [] s j h has = has
  put_reservations-Has (r ∷ rs) s j h has =
      put_reservations-Has rs (put_reservation r s) j h.1 (put-Has s r j h.0 has)

  -- The inputs of `s`, rewritten by f, are in the store after the writes.
  pub rewritten-Each :
      (f : NoteReservation → NoteReservation) (is : List OperationInputReservation)
      (s t : MemoryStore) (rs : List NoteReservation)
      → IsValid s
      → ((r : NoteReservation) → (f r).reservation_id ≡ r.reservation_id)
      → input_reservations is s ≡ ok rs
      → All Q (map f rs)
      → Each Q is (put_reservations (map f rs) t)
  unfolding input_reservations put_reservations
  rewritten-Each f [] s t rs v ids h q = tt
  rewritten-Each f (i ∷ is) s t rs v ids h q =
      >>=-then (or_fail (lookup i.reservation_id s.reservations) _) _ h λ r at h.
        >>=-then (input_reservations is s) _ h λ rest more h.
          let e : (r ∷ rest) ≡ rs = ok-injective h in
          let (qr, qs) : Q (f r) × All Q (map f rest) = subst (λ l. All Q (map f l)) (sym e) q in
          let same : (f r).reservation_id ≡ i.reservation_id =
            ids r ∙ v.keyed i.reservation_id r (ground arith) in
          subst (λ l. Each Q (i ∷ is) (put_reservations (map f l) t)) e
            (
              put_reservations-Has (map f rest) (put_reservation (f r) t) i.reservation_id
                  (All-map (map f rest) (λ q k _. k) qs)
                  (subst (λ k. Has Q (put_reservation (f r) t) k) same (own-Has t (f r) qr)),
              rewritten-Each f is s (put_reservation (f r) t) rest v ids more qs,
            )

  cleared-Has :
      (now : ℕ) (id : String) (s : MemoryStore) (j : String) (o : Option NoteReservation)
      → lookup id s.reservations ≡ o
      → IsValid s
      → ((r : NoteReservation) → Q r → Q (record (clear_lease_fields r) { updated_at = now }))
      → Has Q s j
      → IsValid (clear_found o now s) × Has Q (clear_found o now s) j
  unfolding clear_found active_key
  cleared-Has now id s j none e v fixed has = (v, has)
  cleared-Has now id s j (some r) e v fixed has =
      let own = sym (v.keyed id r e) in
      let cleared = record (clear_lease_fields r) { updated_at = now } in
      (
        write-IsValid s cleared v (inr (r, subst (λ k. Holds s k r) own e, refl, inl refl)),
        elim (Bool-cases (str_eq r.reservation_id j)) [
          | inl same ↦ (
            cleared,
            rw (lookup-put, same) refl,
            fixed r (subst Q (ground (arith, has.1, e, own, str_eq_iff r.reservation_id j)) has.2),
          )
          | inr differ ↦ (has.0, rw (lookup-put, differ) has.1, has.2)
        ],
      )

  -- Clearing the leases of inputs keeps what does not depend on a lease.
  pub clear_input_leases-Has :
      (is : List OperationInputReservation) (now : ℕ) (s : MemoryStore) (j : String)
      → IsValid s
      → ((r : NoteReservation) → Q r → Q (record (clear_lease_fields r) { updated_at = now }))
      → Has Q s j
      → Has Q (clear_input_leases is now s) j
  unfolding clear_input_leases
  clear_input_leases-Has [] now s j v fixed has = has
  clear_input_leases-Has (i ∷ is) now s j v fixed has =
      let (v', has') =
        cleared-Has now i.reservation_id s j (lookup i.reservation_id s.reservations) refl v fixed
          has in
      clear_input_leases-Has is now _ j v' fixed has'
