-- ===== src/Reservation/Invariant.antt =====
-- memory_store.go: what holds of a `MemoryStore` between two methods, and how one write keeps it.
use clairveil.Prelude.{
  String, true, false, ◌&&◌, ◌≡◌, ◌≢◌, inl, inr, refl, none, some, str_eq, str_eq_iff, arith,
  Bool-cases, Option-cases, if◌then◌else◌,
}
use clairveil.Prelude.Dict.{Dict, lookup, lookup-insert, lookup-erase}
use clairveil.Reservation.Status.{is_active}
use clairveil.Reservation.Types.{NoteReservation, PayrollOperation, active_key}
use clairveil.Reservation.Store.{
  MemoryStore, new_store, drop_key, put_reservation, put_operation, has_conflict,
}

abbrev pub Holds : MemoryStore → String → NoteReservation → Type 0
Holds s id r = lookup id s.reservations ≡ some r

-- The index entry of a key belongs to an active reservation that is stored under the entry's id.
abbrev pub Entry : MemoryStore → String → String → Type 0
Entry s k id =
    (r : NoteReservation) × Holds s id r × (is_active r.status ≡ true) × (active_key r ≡ k)

-- Reservations are stored under their ids, and `activeReservationByKey` is exactly the index of the
-- active ones by their keys.
pub record IsValid (s : MemoryStore) : Type 0 where
  pub keyed : (id : String) (r : NoteReservation) → Holds s id r → r.reservation_id ≡ id
  pub complete :
      (id : String) (r : NoteReservation)
      → Holds s id r
      → is_active r.status ≡ true
      → lookup (active_key r) s.active_reservation_by_key ≡ some id
  pub sound : (k id : String) → lookup k s.active_reservation_by_key ≡ some id → Entry s k id

pub new_store-IsValid : IsValid new_store
unfolding lookup
new_store-IsValid = record {
  keyed = λ id r h. cc;
  complete = λ id r h a. cc;
  sound = λ k id h. absurd (cc);
}

-- The key of an active reservation that is about to be written is free, or its own.
abbrev pub IsFree : MemoryStore → NoteReservation → Type 0
IsFree s r =
    is_active r.status ≡ true
    → (id : String) → lookup (active_key r) s.active_reservation_by_key ≡ some id
    → id ≡ r.reservation_id

-- The guard of the code says the same.
pub has_conflict-IsFree :
    (s : MemoryStore) (r : NoteReservation)
    → (is_active r.status && has_conflict r r.reservation_id s) ≡ false
    → IsFree s r
unfolding has_conflict
has_conflict-IsFree s r h a id e = ground (arith, str_eq_iff id r.reservation_id)

module _ (s : MemoryStore) (r : NoteReservation) where
  pub lookup-put :
      (j : String)
      → lookup j (put_reservation r s).reservations
        ≡ (if str_eq r.reservation_id j then some r else lookup j s.reservations)
  unfolding put_reservation
  lookup-put j = lookup-insert r.reservation_id j r s.reservations

  -- The index after the write, from the index after the old entry was dropped.
  abbrev dropped : Dict String
  dropped = drop_key (lookup r.reservation_id s.reservations) s.active_reservation_by_key

  lookup-put_index :
      (k : String)
      → lookup k (put_reservation r s).active_reservation_by_key ≡ (
          if is_active r.status && str_eq (active_key r) k
          then some r.reservation_id
          else lookup k dropped)
  unfolding put_reservation
  lookup-put_index k = elim (Bool-cases (is_active r.status)) [
    | inl a ↦ rw (a, lookup-insert) refl
    | inr a ↦ rw a refl
  ]

  -- An entry that is left after the drop was there, and is not the written reservation's.
  dropped-eq-some :
      (k id : String)
      → IsValid s
      → lookup k dropped ≡ some id
      → (lookup k s.active_reservation_by_key ≡ some id) × (id ≢ r.reservation_id)
  unfolding drop_key
  dropped-eq-some k id v h = elim (Option-cases (lookup r.reservation_id s.reservations)) [
    | inl e ↦ ground (arith, v.sound k id)
    | inr (x, e) ↦ ground (
      arith,
      v.sound k id,
      lookup-erase (active_key x) k s.active_reservation_by_key,
      str_eq_iff (active_key x) k,
    )
  ]

  -- An entry of another reservation survives the drop.
  dropped_keeps :
      (k id : String)
      → IsValid s
      → lookup k s.active_reservation_by_key ≡ some id
      → id ≢ r.reservation_id
      → lookup k dropped ≡ some id
  unfolding drop_key
  dropped_keeps k id v h n = elim (Option-cases (lookup r.reservation_id s.reservations)) [
    | inl e ↦ ground arith
    | inr (x, e) ↦ ground (
      arith,
      v.complete r.reservation_id x e,
      lookup-erase (active_key x) k s.active_reservation_by_key,
      str_eq_iff (active_key x) k,
    )
  ]

  -- A reservation that owns its key is written over itself, and the index stays as it was.
  pub put_owned_index :
      (k : String)
      → IsValid s
      → is_active r.status ≡ true
      → lookup (active_key r) s.active_reservation_by_key ≡ some r.reservation_id
      → lookup k (put_reservation r s).active_reservation_by_key
        ≡ lookup k s.active_reservation_by_key
  unfolding drop_key
  put_owned_index k v a own = elim (Option-cases (lookup r.reservation_id s.reservations)) [
    | inl e ↦ ground (arith, lookup-put_index k, str_eq_iff (active_key r) k)
    | inr (x, e) ↦ ground (
      arith,
      lookup-put_index k,
      v.sound (active_key r) r.reservation_id own,
      lookup-erase (active_key x) k s.active_reservation_by_key,
      str_eq_iff (active_key r) k,
      str_eq_iff (active_key x) k,
    )
  ]

  -- The index after a write under a new id.
  pub index-put_new :
      (k : String)
      → lookup r.reservation_id s.reservations ≡ none
      → lookup k (put_reservation r s).active_reservation_by_key ≡ (
          if is_active r.status && str_eq (active_key r) k
          then some r.reservation_id
          else lookup k s.active_reservation_by_key)
  unfolding drop_key
  index-put_new k e = ground (arith, lookup-put_index k)

  put-keyed :
      (id : String) (q : NoteReservation)
      → IsValid s
      → Holds (put_reservation r s) id q
      → q.reservation_id ≡ id
  put-keyed id q v h = ground (arith, lookup-put id, str_eq_iff r.reservation_id id, v.keyed id q)

  put_complete :
      (id : String) (q : NoteReservation)
      → IsValid s
      → IsFree s r
      → Holds (put_reservation r s) id q
      → is_active q.status ≡ true
      → lookup (active_key q) (put_reservation r s).active_reservation_by_key ≡ some id
  put_complete id q v free h a = elim (Bool-cases (str_eq r.reservation_id id)) [
    | inl same ↦ ground (
      arith,
      lookup-put id,
      lookup-put_index (active_key q),
      str_eq_iff r.reservation_id id,
      str_eq_iff (active_key r) (active_key q),
    )
    | inr differ ↦
        let h' : Holds s id q = rw (lookup-put, differ) at h in
        let entry : lookup (active_key q) s.active_reservation_by_key ≡ some id =
          v.complete id q h' a in
        ground (
          arith,
          entry,
          lookup-put_index (active_key q),
          str_eq_iff r.reservation_id id,
          str_eq_iff (active_key r) (active_key q),
          λ (act : is_active r.status ≡ true)
                (e : lookup (active_key r) s.active_reservation_by_key ≡ some id).
              free act id e,
          λ (n : id ≢ r.reservation_id). dropped_keeps (active_key q) id v entry n,
        )
  ]

  put_sound :
      (k id : String)
      → IsValid s
      → lookup k (put_reservation r s).active_reservation_by_key ≡ some id
      → Entry (put_reservation r s) k id
  put_sound k id v h = elim (Bool-cases (is_active r.status && str_eq (active_key r) k)) [
    | inl own ↦ (
      r,
      ground (arith, lookup-put id, lookup-put_index k, str_eq_iff r.reservation_id id),
      ground arith,
      ground (arith, str_eq_iff (active_key r) k),
    )
    | inr foreign ↦
        let (kept, n) = dropped-eq-some k id v (rw (lookup-put_index, foreign) at h) in
        let (q, at, active, key) = v.sound k id kept in
        (q, ground (arith, lookup-put id, str_eq_iff r.reservation_id id), active, key)
  ]

  -- One write keeps the store valid, if the key that it claims is free.
  pub put-IsValid : IsValid s → IsFree s r → IsValid (put_reservation r s)
  put-IsValid v free = record {
    keyed = λ id q h. put-keyed id q v h;
    complete = λ id q h a. put_complete id q v free h a;
    sound = λ k id h. put_sound k id v h;
  }

-- Two active reservations of a valid store never share a key.
pub IsValid-unique :
    (s : MemoryStore) (i j : String) (a b : NoteReservation)
    → IsValid s
    → Holds s i a
    → Holds s j b
    → is_active a.status ≡ true
    → is_active b.status ≡ true
    → active_key a ≡ active_key b
    → i ≡ j
IsValid-unique s i j a b v ha hb aa ab k =
    ground (arith, v.complete i a ha aa, v.complete j b hb ab)

-- Operations are no part of the invariant.
pub put_operation-IsValid :
    (o : PayrollOperation) (s : MemoryStore) → IsValid s → IsValid (put_operation o s)
unfolding put_operation
put_operation-IsValid o s v = record { keyed = v.keyed; complete = v.complete; sound = v.sound }
