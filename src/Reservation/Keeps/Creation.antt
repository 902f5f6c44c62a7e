-- ===== src/Reservation/Keeps/Creation.antt =====
-- memory_store.go: creating reservations keeps a valid store valid. The checks run on the store as it
-- was, with sets of what the batch has claimed so far; the writes run one after the other.
use clairveil.Prelude.{String, true, ◌≡◌, refl, none, List, [], ◌∷◌, arith, if◌then◌else◌}
use clairveil.Prelude.Result.{Result, ok, err, >>=-eq-ok}
use clairveil.Prelude.Exec.{continue}
use clairveil.Prelude.Dict.{StringSet, lookup, contains, insert, lookup-insert}
use clairveil.Reservation.Status.{is_active}
use clairveil.Reservation.Types.{Error, NoteReservation, PayrollOperation, active_key}
use clairveil.Reservation.Store.{MemoryStore, put_reservation}
use clairveil.Reservation.Create.{
  validate_reservation_create, validate_reservations, validate_batch, put_reservations,
  put_operations, create_reservation_batch, create_reservation,
}
use clairveil.Reservation.Invariant.{IsValid, put-IsValid, lookup-put, index-put_new}
use clairveil.Reservation.Keeps.{Keeps}
use clairveil.Reservation.Keeps.Batches.{put_operations-IsValid}

-- `t` is `s` after the writes of reservations whose ids and active keys are all pending.
record IsPending (s t : MemoryStore) (pending keys : StringSet) : Type 0 where
  ids :
      (j : String)
      → lookup j s.reservations ≡ none
      → lookup j pending ≡ none
      → lookup j t.reservations ≡ none
  claims :
      (k : String)
      → lookup k s.active_reservation_by_key ≡ none
      → lookup k keys ≡ none
      → lookup k t.active_reservation_by_key ≡ none

-- A reservation that was accepted is new to the store and to the batch, and so is its key.
pub record IsNew (s : MemoryStore) (pending keys keys' : StringSet) (r : NoteReservation)
    : Type 0 where
  pub id_stored : lookup r.reservation_id s.reservations ≡ none
  pub id_pending : lookup r.reservation_id pending ≡ none
  pub key_stored :
      is_active r.status ≡ true → lookup (active_key r) s.active_reservation_by_key ≡ none
  pub key_pending : is_active r.status ≡ true → lookup (active_key r) keys ≡ none
  pub claimed : keys' ≡ (if is_active r.status then insert (active_key r) tt keys else keys)

pub validate-IsNew :
    (r : NoteReservation) (pending keys keys' : StringSet) (s : MemoryStore)
    → validate_reservation_create r pending keys s ≡ ok keys'
    → IsNew s pending keys keys' r
unfolding validate_reservation_create contains
validate-IsNew r pending keys keys' s h = ground arith

pub validate_create-absent :
    (r : NoteReservation) (pending keys keys' : StringSet) (s : MemoryStore)
    → validate_reservation_create r pending keys s ≡ ok keys'
    → lookup r.reservation_id s.reservations ≡ none
validate_create-absent r pending keys keys' s h =
    (validate-IsNew r pending keys keys' s h).id_stored

put-IsPending :
    (r : NoteReservation) (s t : MemoryStore) (pending keys keys' : StringSet)
    → IsNew s pending keys keys' r
    → IsPending s t pending keys
    → IsPending s (put_reservation r t) (insert r.reservation_id tt pending) keys'
put-IsPending r s t pending keys keys' new p =
    let fresh : lookup r.reservation_id t.reservations ≡ none =
      p.ids r.reservation_id new.id_stored new.id_pending in
    record {
      ids = λ j stored left.
          ground
            (arith, lookup-put t r j, lookup-insert r.reservation_id j tt pending, p.ids j stored);
      claims = λ k stored left. ground (
        arith,
        index-put_new t r k fresh,
        lookup-insert (active_key r) k tt keys,
        p.claims k stored,
      );
    }

validate_reservations-IsValid :
    (rs : List NoteReservation) (pending keys : StringSet) (s t : MemoryStore)
    → IsValid t
    → IsPending s t pending keys
    → validate_reservations rs pending keys s ≡ ok tt
    → IsValid (put_reservations rs t)
unfolding validate_reservations put_reservations
validate_reservations-IsValid [] pending keys s t v p h = v
validate_reservations-IsValid (r ∷ rs) pending keys s t v p h =
    let (keys', e, h') = >>=-eq-ok (validate_reservation_create r pending keys s) _ h in
    let new = validate-IsNew r pending keys keys' s e in
    validate_reservations-IsValid rs (insert r.reservation_id tt pending) keys' s
      (put_reservation r t)
      (put-IsValid t r v (λ a id used.
        ground (arith, p.claims (active_key r) (new.key_stored a) (new.key_pending a))))
      (put-IsPending r s t pending keys keys' new p) h'

-- Reservations that passed the checks are stored, and the store is valid.
pub put_validated-IsValid :
    (rs : List NoteReservation) (s : MemoryStore)
    → IsValid s
    → validate_reservations rs [] [] s ≡ ok tt
    → IsValid (put_reservations rs s)
put_validated-IsValid rs s v h =
    validate_reservations-IsValid rs [] [] s s v (record { ids = λ j h _. h; claims = λ k h _. h })
      h

pub validate_batch-eq-ok :
    (rs : List NoteReservation) (os : List PayrollOperation) (s : MemoryStore)
    → validate_batch rs os s ≡ ok tt
    → validate_reservations rs [] [] s ≡ ok tt
unfolding validate_batch
validate_batch-eq-ok rs os s h = ground arith

-- A batch is stored whole or not at all, and either way the store is valid.
pub create_reservation_batch-IsValid :
    (rs : List NoteReservation) (os : List PayrollOperation)
    → Keeps (create_reservation_batch rs os)
unfolding create_reservation_batch
create_reservation_batch-IsValid [] os s v = v
create_reservation_batch-IsValid (r ∷ rs) os s v = go (validate_batch (r ∷ rs) os s) refl
  where
    go :
        (m : Result Error Unit)
        → validate_batch (r ∷ rs) os s ≡ m
        → IsValid
            (continue m (λ _ t. (ok (r ∷ rs), put_operations os (put_reservations (r ∷ rs) t))) s).1
    go (err e) h = v
    go (ok tt) h =
        put_operations-IsValid os _
          (put_validated-IsValid (r ∷ rs) s v (validate_batch-eq-ok (r ∷ rs) os s h))

pub create_reservation-IsValid : (r : NoteReservation) → Keeps (create_reservation r)
unfolding create_reservation
create_reservation-IsValid r s v = create_reservation_batch-IsValid (r ∷ []) [] s v
