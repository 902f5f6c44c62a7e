-- ===== src/Reservation/Create/Effects.antt =====
-- memory_store.go: what a batch of creations leaves in the store.
use clairveil.Prelude.{
  String, true, false, ◌&&◌, ◌≡◌, ◌≢◌, refl, ap, ◌∙◌, none, some, List, [], ◌∷◌, All, All-map,
  str_eq, str_eq_iff, arith,
}
use clairveil.Prelude.Result.{Result, ok, err, After, >>=-eq-ok}
use clairveil.Prelude.Exec.{continue}
use clairveil.Prelude.Dict.{StringSet, lookup, contains, insert, lookup-insert}
use clairveil.Reservation.Status.{is_active}
use clairveil.Reservation.Types.{Error, NoteReservation, PayrollOperation, active_key}
use clairveil.Reservation.Store.{MemoryStore, put_reservation, put_operation}
use clairveil.Reservation.Create.{
  validate_reservation_create, validate_reservations, validate_batch, put_reservations,
  put_operations, create_reservation_batch,
}
use clairveil.Reservation.Invariant.{Holds, lookup-put}
use clairveil.Reservation.Keeps.Creation.{validate-IsNew, validate_batch-eq-ok}

pub put_reservations-others :
    (rs : List NoteReservation) (j : String) (t : MemoryStore)
    → All (λ r. r.reservation_id ≢ j) rs
    → lookup j (put_reservations rs t).reservations ≡ lookup j t.reservations
unfolding put_reservations
put_reservations-others [] j t h = refl
put_reservations-others (r ∷ rs) j t h =
    put_reservations-others rs j (put_reservation r t) h.1
    ∙ ground (arith, lookup-put t r j, str_eq_iff r.reservation_id j, h.0)

pub put_operations-reservations :
    (os : List PayrollOperation) (t : MemoryStore)
    → (put_operations os t).reservations ≡ t.reservations
unfolding put_operations put_operation
put_operations-reservations [] t = refl
put_operations-reservations (o ∷ os) t = put_operations-reservations os (put_operation o t)

-- No reservation of an accepted batch has an id that is pending.
validate-others :
    (rs : List NoteReservation) (pending keys : StringSet) (s : MemoryStore) (j : String)
    → lookup j pending ≡ some tt
    → validate_reservations rs pending keys s ≡ ok tt
    → All (λ r. r.reservation_id ≢ j) rs
unfolding validate_reservations
validate-others [] pending keys s j p h = tt
validate-others (r ∷ rs) pending keys s j p h =
    let (keys', e, h') = >>=-eq-ok (validate_reservation_create r pending keys s) _ h in
    let new = validate-IsNew r pending keys keys' s e in
    (
      λ same. ground (new.id_pending, ap (λ i. lookup i pending) same, p, arith),
      validate-others rs (insert r.reservation_id tt pending) keys' s j
          (ground (arith, lookup-insert r.reservation_id j tt pending)) h',
    )

stored :
    (rs : List NoteReservation) (pending keys : StringSet) (s t : MemoryStore)
    → validate_reservations rs pending keys s ≡ ok tt
    → All (λ r. Holds (put_reservations rs t) r.reservation_id r) rs
unfolding validate_reservations put_reservations
stored [] pending keys s t h = tt
stored (r ∷ rs) pending keys s t h =
    let (keys', e, h') = >>=-eq-ok (validate_reservation_create r pending keys s) _ h in
    let pending' = insert r.reservation_id tt pending in
    let own : str_eq r.reservation_id r.reservation_id ≡ true =
      (str_eq_iff r.reservation_id r.reservation_id).1 refl in
    (
      put_reservations-others rs r.reservation_id (put_reservation r t) (
            validate-others rs pending' keys' s r.reservation_id
              (ground (arith, own, lookup-insert r.reservation_id r.reservation_id tt pending)) h')
          ∙ ground (arith, own, lookup-put t r r.reservation_id),
      stored rs pending' keys' s (put_reservation r t) h',
    )

-- The reservation's id was free, and so was its key if it is active.
abbrev pub WasFree : MemoryStore → NoteReservation → Type 0
WasFree s r =
    (lookup r.reservation_id s.reservations ≡ none)
    × ((is_active r.status && contains (active_key r) s.active_reservation_by_key) ≡ false)

were_free :
    (rs : List NoteReservation) (pending keys : StringSet) (s : MemoryStore)
    → validate_reservations rs pending keys s ≡ ok tt
    → All (WasFree s) rs
unfolding validate_reservations contains
were_free [] pending keys s h = tt
were_free (r ∷ rs) pending keys s h =
    let (keys', e, h') = >>=-eq-ok (validate_reservation_create r pending keys s) _ h in
    let new = validate-IsNew r pending keys keys' s e in
    (
      (new.id_stored, ground (arith, new.key_stored)),
      were_free rs (insert r.reservation_id tt pending) keys' s h',
    )

both :
    (rs : List NoteReservation) (P Q : NoteReservation → Type 0)
    → All P rs
    → All Q rs
    → All (λ r. P r × Q r) rs
both [] P Q p q = tt
both (r ∷ rs) P Q p q = ((p.0, q.0), both rs P Q p.1 q.1)

-- Reservations that passed the checks were free, and are stored.
pub validated-stored :
    (rs : List NoteReservation) (s : MemoryStore)
    → validate_reservations rs [] [] s ≡ ok tt
    → All (λ r. WasFree s r × Holds (put_reservations rs s) r.reservation_id r) rs
validated-stored rs s h =
    both rs (WasFree s) (λ r. Holds (put_reservations rs s) r.reservation_id r)
      (were_free rs [] [] s h) (stored rs [] [] s s h)

-- `CreateReservationBatch` is all or nothing: if it succeeds it returns the batch, the ids and active keys
-- of which were free, and each of its reservations is stored under its id; if it fails it changes nothing.
pub create_reservation_batch-Creates :
    (rs : List NoteReservation) (os : List PayrollOperation) (s : MemoryStore)
    → let (result, t) = create_reservation_batch rs os s in
      After result
        (λ created. (created ≡ rs) × All (λ r. WasFree s r × Holds t r.reservation_id r) rs)
        (λ e. t ≡ s)
unfolding create_reservation_batch
create_reservation_batch-Creates [] os s = (refl, tt)
create_reservation_batch-Creates (q ∷ qs) os s = go (validate_batch (q ∷ qs) os s) refl
  where
    go :
        (m : Result Error Unit)
        → validate_batch (q ∷ qs) os s ≡ m
        → let (result, t) =
            continue m (λ _ t. (ok (q ∷ qs), put_operations os (put_reservations (q ∷ qs) t))) s in
          After result
            (λ created.
              (created ≡ q ∷ qs) × All (λ r. WasFree s r × Holds t r.reservation_id r) (q ∷ qs))
            (λ e. t ≡ s)
    go (err x) h = refl
    go (ok tt) h =
        let valid = validate_batch-eq-ok (q ∷ qs) os s h in
        (
          refl,
          All-map (q ∷ qs)
              (λ r (free, at). (
                free,
                ap (λ d. lookup r.reservation_id d)
                      (put_operations-reservations os (put_reservations (q ∷ qs) s))
                    ∙ at,
              ))
              (validated-stored (q ∷ qs) s valid),
        )
