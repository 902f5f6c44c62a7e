-- ===== src/Reservation/Batch/Sorting.antt =====
-- batch_memory_store.go: the lists of a graph, sorted by their index.
use clairveil.Prelude.{
  String, true, ◌≡◌, inl, inr, List, [], ◌∷◌, All, All-map, arith, Bool-cases, str_eq_refl,
}
use mathlib.Core.List.{Perm}
use mathlib.Core.List.Perm
use clairveil.Prelude.Int.{ℤ, leb_ℤ}
use clairveil.Prelude.Dict.{Dict, insert, lookup-insert}
use clairveil.Reservation.Batch.Store.{slice_at, place, sorted_by}

module _ {A : Type 0} (index : A → ℤ) where
  place-All : (P : A → Type 0) (x : A) (xs : List A) → P x → All P xs → All P (place index x xs)
  unfolding place
  place-All P x [] p h = (p, tt)
  place-All P x (y ∷ ys) p h = elim (Bool-cases (leb_ℤ (index x) (index y))) [
    | inl e ↦ rw e (p, h)
    | inr e ↦ rw e (h.0, place-All P x ys p h.1)
  ]

  pub sorted_by-All : (P : A → Type 0) (xs : List A) → All P xs → All P (sorted_by index xs)
  unfolding sorted_by
  sorted_by-All P [] h = tt
  sorted_by-All P (x ∷ xs) h = place-All P x (sorted_by index xs) h.0 (sorted_by-All P xs h.1)

  -- Each element's index is at most those after it.
  abbrev pub InOrder : List A → Type 0
  InOrder [] = Unit
  InOrder (x ∷ xs) = All (λ y. leb_ℤ (index x) (index y) ≡ true) xs × InOrder xs

  -- The second list holds the elements of the first, each as often, in the order of the index.
  abbrev pub Orders : List A → List A → Type 0
  Orders given got = Perm got given × InOrder got

  place-Perm : (x : A) (xs : List A) → Perm (place index x xs) (x ∷ xs)
  unfolding place
  place-Perm x [] = Perm.rfl
  place-Perm x (y ∷ ys) = elim (Bool-cases (leb_ℤ (index x) (index y))) [
    | inl e ↦ rw e Perm.rfl
    | inr e ↦ rw e (Perm.trans (Perm.cons y (place-Perm x ys)) (Perm.swap x y ys))
  ]

  sorted_by-Perm : (xs : List A) → Perm (sorted_by index xs) xs
  unfolding sorted_by
  sorted_by-Perm [] = Perm.rfl
  sorted_by-Perm (x ∷ xs) =
      Perm.trans (place-Perm x (sorted_by index xs)) (Perm.cons x (sorted_by-Perm xs))

  place-InOrder : (x : A) (xs : List A) → InOrder xs → InOrder (place index x xs)
  unfolding place
  place-InOrder x [] h = (tt, tt)
  place-InOrder x (y ∷ ys) h = elim (Bool-cases (leb_ℤ (index x) (index y))) [
    | inl e ↦ rw e ((e, All-map ys (λ z g. ground (arith, e, g)) h.0), h)
    | inr e ↦ rw e (
      place-All (λ z. leb_ℤ (index y) (index z) ≡ true) x ys (ground (arith, e)) h.0,
      place-InOrder x ys h.1,
    )
  ]

  pub sorted_by-InOrder : (xs : List A) → InOrder (sorted_by index xs)
  unfolding sorted_by
  sorted_by-InOrder [] = tt
  sorted_by-InOrder (x ∷ xs) = place-InOrder x (sorted_by index xs) (sorted_by-InOrder xs)

pub slice_at-insert :
    {A : Type 0} (id : String) (xs : List A) (d : Dict (List A)) → slice_at id (insert id xs d) ≡ xs
unfolding slice_at
slice_at-insert id xs d = ground (arith, lookup-insert id id xs d, str_eq_refl id)

-- What is stored sorted and read sorted is what was given, in order.
pub stored_Orders :
    {A : Type 0} (index : A → ℤ) (id : String) (xs : List A) (d : Dict (List A))
    → Orders index xs (sorted_by index (slice_at id (insert id (sorted_by index xs) d)))
stored_Orders index id xs d =
    let once = sorted_by index xs in
    (
      rw (slice_at-insert id once d)
          (Perm.trans (sorted_by-Perm index once) (sorted_by-Perm index xs)),
      sorted_by-InOrder index (slice_at id (insert id once d)),
    )
