-- ===== src/Prelude/Dict.antt =====
-- Go's maps with string keys, as association lists with each key at most once. `range` over a map
-- goes through `values`; Go leaves its order open, and the list's order is one such order.
use mathlib.Core.Path.{◌≡◌, refl}
use mathlib.Core.Bool.{Bool, true, false}
use mathlib.Core.Option.{Option, none, some}
use mathlib.Core.List.{List, [], ◌∷◌}
use native.Mathlib.Omega.{arith}
use Prim.Native.String.{String}
use text.Mathlib.Text.{◌==◌ as str_eq}
use text.Mathlib.TextEquality.{eq_iff as str_eq_iff}
use clairveil.Prelude.Tests.{if◌then◌else◌}
use clairveil.Prelude.Lists.{all}

abbrev pub Dict {ℓ} : Type ℓ → Type ℓ
Dict V = List (String × V)

-- `map[string]struct{}`.
abbrev pub StringSet : Type 0
StringSet = Dict (Unit {0})

module _ {ℓ} {V : Type ℓ} where
  unfoldable pub lookup : String → Dict V → Option V
  lookup k [] = none
  lookup k ((j, v) ∷ d) = if str_eq j k then some v else lookup k d

  -- `_, ok := m[k]`.
  unfoldable pub contains : String → Dict V → Bool
  contains k d = elim (lookup k d) [ none ↦ false | some _ ↦ true ]

  -- `m[k] = v`.
  unfoldable pub insert : String → V → Dict V → Dict V
  insert k v [] = (k, v) ∷ []
  insert k v ((j, w) ∷ d) = if str_eq j k then (k, v) ∷ d else (j, w) ∷ insert k v d

  -- `delete(m, k)`.
  unfoldable pub erase : String → Dict V → Dict V
  erase k [] = []
  erase k ((j, w) ∷ d) = let rest = erase k d in if str_eq j k then rest else (j, w) ∷ rest

  unfoldable pub values : Dict V → List V
  values [] = []
  values ((k, v) ∷ d) = v ∷ values d

  pub lookup-insert :
      (k j : String) (v : V) (d : Dict V)
      → lookup j (insert k v d) ≡ (if str_eq k j then some v else lookup j d)
  unfolding lookup insert
  lookup-insert k j v [] = refl
  lookup-insert k j v ((i, w) ∷ d) =
      ground (arith, str_eq_iff k j, str_eq_iff i k, str_eq_iff i j, lookup-insert k j v d)

  pub lookup-erase :
      (k j : String) (d : Dict V) → lookup j (erase k d) ≡ (if str_eq k j then none else lookup j d)
  unfolding lookup erase
  lookup-erase k j [] = ground arith
  lookup-erase k j ((i, w) ∷ d) =
      ground (arith, str_eq_iff k j, str_eq_iff i k, str_eq_iff i j, lookup-erase k j d)

  -- What a key holds is among the values that a `range` loop visits.
  pub all-values :
      (p : V → Bool) (k : String) (d : Dict V) {v : V}
      → all p (values d) ≡ true
      → lookup k d ≡ some v
      → p v ≡ true
  unfolding lookup values
  all-values p k [] h e = cc
  all-values p k ((j, w) ∷ d) {v} h e =
      ground
        (arith, λ (g : all p (values d) ≡ true) (f : lookup k d ≡ some v). all-values p k d g f)

-- The keys of a list of texts, as a set.
unfoldable pub set_of : List String → StringSet
unfolding insert
set_of [] = []
set_of (k ∷ ks) = insert k tt (set_of ks)
