-- ===== src/Reservation/Batch/Named.antt =====
-- batch_memory_store.go: the inputs that the evidence of `ReconcileBatchOperation` names as spent.
use clairveil.Prelude.{
  ◌+◌, ◌≤◌, String, true, false, not, ◌||◌, ◌≡◌, ◌≢◌, refl, inl, inr, List, [], ◌∷◌, length, All,
  All-map, arith, Bool-cases, str_eq, str_eq_refl, str_eq_iff, if◌then◌else◌,
}
use clairveil.Prelude.Result.{ok, guard, >>=-then}
use clairveil.Prelude.Dict.{StringSet, set_of, lookup, contains, insert, lookup-insert}
use clairveil.Reservation.Batch.Numbering.{Apart, contains-apart, contains-rest}
use clairveil.Reservation.Batch.Reconcile.{check_spent}

pub contains-insert :
    (k j : String) (s : StringSet) → contains j (insert k tt s) ≡ (str_eq k j || contains j s)
unfolding contains
contains-insert k j s = ground (arith, lookup-insert k j tt s)

pub contains-set_of : (ids : List String) → All (λ j. contains j (set_of ids) ≡ true) ids
unfolding set_of
contains-set_of [] = tt
contains-set_of (k ∷ ids) = (
  rw (contains-insert, str_eq_refl) refl,
  All-map ids (λ j h. ground (arith, contains-insert k j (set_of ids))) (contains-set_of ids),
)

pub check_spent-inputs :
    (inputs : StringSet) (ids : List String) (seen : StringSet)
    → check_spent inputs ids seen ≡ ok tt
    → All (λ j. contains j inputs ≡ true) ids
unfolding check_spent
check_spent-inputs inputs [] seen h = tt
check_spent-inputs inputs (k ∷ ids) seen h = >>=-then (guard (contains k inputs) _) _ h λ _ first h.
    >>=-then (guard (not (contains k seen)) _) _ h
      λ _ _ h. (ground arith, check_spent-inputs inputs ids (insert k tt seen) h)

check_spent-unseen :
    (inputs : StringSet) (ids : List String) (seen : StringSet)
    → check_spent inputs ids seen ≡ ok tt
    → All (λ j. contains j seen ≡ false) ids
unfolding check_spent
check_spent-unseen inputs [] seen h = tt
check_spent-unseen inputs (k ∷ ids) seen h = >>=-then (guard (contains k inputs) _) _ h λ _ _ h.
    >>=-then (guard (not (contains k seen)) _) _ h λ _ first h. (
      ground arith,
      All-map ids (λ j. contains-rest k j seen)
          (check_spent-unseen inputs ids (insert k tt seen) h),
    )

-- The ids that pass are different from each other.
pub check_spent-Apart :
    (inputs : StringSet) (ids : List String) (seen : StringSet)
    → check_spent inputs ids seen ≡ ok tt
    → Apart ids
unfolding check_spent
check_spent-Apart inputs [] seen h = tt
check_spent-Apart inputs (k ∷ ids) seen h = >>=-then (guard (contains k inputs) _) _ h λ _ _ h.
    >>=-then (guard (not (contains k seen)) _) _ h λ _ _ h. (
      All-map ids (λ j. contains-apart k j seen)
          (check_spent-unseen inputs ids (insert k tt seen) h),
      check_spent-Apart inputs ids (insert k tt seen) h,
    )

-- The list without the first occurrence.
erase : String → List String → List String
erase k [] = []
erase k (x ∷ xs) = let rest = erase k xs in if str_eq x k then xs else x ∷ rest

length-erase :
    (k : String) (xs : List String)
    → contains k (set_of xs) ≡ true
    → length xs ≡ 1 + length (erase k xs)
unfolding erase set_of contains lookup
length-erase k [] h = absurd (cc)
length-erase k (x ∷ xs) h = elim (Bool-cases (str_eq x k)) [
  | inl e ↦ rw e (omega arith)
  | inr e ↦ rw e (ground (arith, length-erase k xs, contains-insert x k (set_of xs)))
]

contains-erase :
    (k j : String) (xs : List String)
    → k ≢ j
    → contains j (set_of xs) ≡ true
    → contains j (set_of (erase k xs)) ≡ true
unfolding erase set_of
contains-erase k j [] apart h = h
contains-erase k j (x ∷ xs) apart h = elim (Bool-cases (str_eq x k)) [
  | inl e ↦
      rw e (ground (arith, contains-insert x j (set_of xs), str_eq_iff x k, str_eq_iff x j, apart))
  | inr e ↦ rw e (
      ground (
        arith,
        contains-insert x j (set_of xs),
        contains-insert x j (set_of (erase k xs)),
        contains-erase k j xs apart,
      ))
]

erase-All :
    (k : String) (ks xs : List String)
    → All (λ j. contains j (set_of ks) ≡ true) (erase k xs)
    → All (λ j. contains j (set_of (k ∷ ks)) ≡ true) xs
unfolding erase set_of
erase-All k ks [] h = tt
erase-All k ks (x ∷ xs) h = elim (Bool-cases (str_eq x k)) [
  | inl e ↦ (
    ground (arith, contains-insert k x (set_of ks), str_eq_iff x k, str_eq_iff k x),
    All-map xs (λ j g. ground (arith, contains-insert k j (set_of ks))) (rw e at h),
  )
  | inr e ↦
      let h : All (λ j. contains j (set_of ks) ≡ true) (x ∷ erase k xs) = rw e at h in
      (ground (arith, contains-insert k x (set_of ks), h.0), erase-All k ks xs h.1)
]

-- Different elements of a list that are as many as it has are all of it.
pub pigeonhole :
    (ks xs : List String)
    → Apart ks
    → All (λ j. contains j (set_of xs) ≡ true) ks
    → length xs ≤ length ks
    → All (λ j. contains j (set_of ks) ≡ true) xs
pigeonhole [] [] apart among short = tt
pigeonhole [] (x ∷ xs) apart among short = absurd (omega (arith, short))
pigeonhole (k ∷ ks) xs apart among short = erase-All k ks xs (
    pigeonhole ks (erase k xs) apart.1 (still ks apart.0 among.1)
      (omega (arith, length-erase k xs among.0, short)))
  where
    still :
        (js : List String)
        → All (λ j. k ≢ j) js
        → All (λ j. contains j (set_of xs) ≡ true) js
        → All (λ j. contains j (set_of (erase k xs)) ≡ true) js
    still [] a h = tt
    still (j ∷ js) a h = (contains-erase k j xs a.0 h.0, still js a.1 h.1)
