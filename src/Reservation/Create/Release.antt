-- ===== src/Reservation/Create/Release.antt =====
-- memory_store.go: a note that is reserved cannot be reserved again until it is released.
use clairveil.Prelude.{
  ℕ, String, true, ◌≡◌, ◌≢◌, inl, inr, refl, ap, subst, none, some, str_eq_iff, arith, Option-cases,
}
use clairveil.Prelude.Result.{Result, ok, err}
use clairveil.Prelude.Dict.{lookup, contains}
use clairveil.Reservation.Status.{
  ReservationStatus, is_active, can_transition, requires_lease_token,
}
use clairveil.Reservation.Types.{Error, NoteReservation, active_key}
use clairveil.Reservation.Store.{MemoryStore, put_reservation, commit}
use clairveil.Reservation.Transition.{
  find_reservation, transitioned, check_transition, candidate, compare_and_set_locked,
  compare_and_set,
}
use clairveil.Reservation.Create.{
  claim_key, validate_reservation_create, validate_reservations, validate_batch,
  create_reservation_batch, create_reservation, validate_operations,
}
use clairveil.Reservation.Invariant.{IsValid, Holds, Entry, IsValid-unique, lookup-put}
use clairveil.Reservation.Keeps.{transitioned_parts, compare_and_set-IsValid}

create_taken :
    (r : NoteReservation) (s : MemoryStore) (i : String)
    → is_active r.status ≡ true
    → r.reservation_id ≢ ""
    → lookup r.reservation_id s.reservations ≡ none
    → lookup (active_key r) s.active_reservation_by_key ≡ some i
    → create_reservation r s ≡ (err Error.active_reservation_exists, s)
unfolding create_reservation create_reservation_batch validate_batch validate_reservations
    validate_reservation_create claim_key contains lookup
create_taken r s i a n new taken = ground (arith, str_eq_iff r.reservation_id "")

create_free :
    (r : NoteReservation) (s : MemoryStore)
    → is_active r.status ≡ true
    → r.reservation_id ≢ ""
    → lookup r.reservation_id s.reservations ≡ none
    → lookup (active_key r) s.active_reservation_by_key ≡ none
    → (create_reservation r s).0 ≡ ok r
unfolding create_reservation create_reservation_batch validate_batch validate_reservations
    validate_reservation_create claim_key contains lookup validate_operations
create_free r s a n new free = ground (arith, str_eq_iff r.reservation_id "")

module _ (id : String) (now : ℕ) (s : MemoryStore) (old : NoteReservation) (v : IsValid s)
    (at : Holds s id old) (held : old.status ≡ ReservationStatus.reserved) where
  abbrev gone : NoteReservation
  gone = transitioned ReservationStatus.released now old

  released :
      compare_and_set id ReservationStatus.reserved ReservationStatus.released now s
      ≡ (ok gone, put_reservation gone s)
  unfolding compare_and_set compare_and_set_locked candidate check_transition find_reservation
      commit requires_lease_token is_active can_transition
  released = ground (arith, at, held)

  gone-IsValid : IsValid (put_reservation gone s)
  gone-IsValid =
      subst (λ (x : Result Error NoteReservation × MemoryStore). IsValid x.1) released
        (compare_and_set-IsValid id ReservationStatus.reserved ReservationStatus.released now s v)

  no-Entry : (j : String) → ¬ Entry (put_reservation gone s) (active_key old) j
  unfolding is_active
  no-Entry j (q, there, active, key) = ground (
    arith,
    lookup-put s gone j,
    transitioned_parts ReservationStatus.released now old,
    str_eq_iff gone.reservation_id j,
    v.keyed id old at,
    λ (h : Holds s j q). IsValid-unique s j id q old v h at active (ap is_active held) key,
  )

  freed : lookup (active_key old) (put_reservation gone s).active_reservation_by_key ≡ none
  freed =
      elim (Option-cases
        (lookup (active_key old) (put_reservation gone s).active_reservation_by_key)) [
          | inl e ↦ e
          | inr (j, e) ↦ absurd (no-Entry j (gone-IsValid.sound (active_key old) j e))
        ]

  still_new :
      (j : String)
      → lookup j s.reservations ≡ none
      → lookup j (put_reservation gone s).reservations ≡ none
  still_new j new = ground (
    arith,
    lookup-put s gone j,
    transitioned_parts ReservationStatus.released now old,
    str_eq_iff gone.reservation_id j,
    v.keyed id old at,
  )

  -- While a valid store holds a `Reserved` reservation, a new active one with the same owner key and
  -- nullifier key is refused and nothing changes; once the old one is moved to `Released`, which succeeds,
  -- the same request succeeds. The new one has an id, which no reservation has.
  pub release_frees :
      (r : NoteReservation)
      → is_active r.status ≡ true
      → active_key r ≡ active_key old
      → r.reservation_id ≢ ""
      → lookup r.reservation_id s.reservations ≡ none
      → let (result, t) =
          compare_and_set id ReservationStatus.reserved ReservationStatus.released now s in
        (create_reservation r s ≡ (err Error.active_reservation_exists, s))
        × (result ≡ ok (transitioned ReservationStatus.released now old))
        × ((create_reservation r t).0 ≡ ok r)
  unfolding is_active
  release_frees r active same n new = rw released (
    create_taken r s id active n new (rw same (v.complete id old at (rw held refl))),
    refl,
    create_free r (put_reservation gone s) active n (still_new r.reservation_id new)
        (rw same freed),
  )
