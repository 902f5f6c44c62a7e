-- ===== src/Reservation/Identity.antt =====
-- reconcile.go: how texts are compared. `lower` stands for `unicode.ToLower`, code point by code point.
use mathlib.Core.List.{reverse}
use clairveil.Prelude.{
  ℕ, String, Bool, true, false, not, ◌&&◌, ◌||◌, Option, none, some, List, [], ◌∷◌, map,
  if◌then◌else◌,
}
use clairveil.Reservation.Links.{is_space, is_nil}
use clairveil.Reservation.Audit.{codes, list_eq}

unfoldable pub drop_space : List ℕ → List ℕ
unfolding is_space
drop_space [] = []
drop_space (c ∷ cs) = let rest = drop_space cs in if is_space c then rest else c ∷ cs

-- `strings.TrimSpace`.
unfoldable pub trim : String → List ℕ
unfolding drop_space codes
trim s = reverse (drop_space (reverse (drop_space (codes s))))

-- `firstNonEmpty`.
unfoldable pub first_non_empty : List String → List ℕ
first_non_empty [] = []
first_non_empty (s ∷ ss) = let rest = first_non_empty ss in if is_nil (trim s) then rest else trim s

-- `matchRequired`, on texts that are trimmed.
unfoldable pub match_required : List ℕ → List ℕ → Bool
unfolding list_eq
match_required expected actual =
    not (is_nil expected) && not (is_nil actual) && list_eq expected actual

unfoldable pub mem : List ℕ → List (List ℕ) → Bool
unfolding list_eq
mem x [] = false
mem x (y ∷ ys) = list_eq y x || mem x ys

unfoldable pub non_empty_texts : List (List ℕ) → List (List ℕ)
non_empty_texts [] = []
non_empty_texts (x ∷ xs) = let rest = non_empty_texts xs in if is_nil x then rest else x ∷ rest

unfoldable pub all_expected : List (List ℕ) → List (List ℕ) → Bool
unfolding mem
all_expected expected [] = true
all_expected expected (x ∷ xs) = mem x expected && all_expected expected xs

module _ (lower : ℕ → ℕ) where
  -- `normalizedTxIdentity`.
  unfoldable pub normalized : String → List ℕ
  unfolding trim
  normalized s = map lower (trim s)

  -- The two results of `txIdentityMatches`, on normalised values: none where the second is false.
  unfoldable pub identity_matches : List (List ℕ) → List (List ℕ) → Option Bool
  unfolding non_empty_texts all_expected
  identity_matches expected actual =
      if is_nil (non_empty_texts expected)
      then some false
      else if all_expected (non_empty_texts expected) (non_empty_texts actual)
      then some (not (is_nil (non_empty_texts actual)))
      else none
