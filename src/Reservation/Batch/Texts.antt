-- ===== src/Reservation/Batch/Texts.antt =====
-- batch_memory_store.go: how texts, field elements and evidence are compared. `fold` takes a code point
-- to one that stands for its class under `unicode.SimpleFold`.
use mathlib.Core.List.{reverse}
use Prim.Native.String.{◌++◌}
use clairveil.Prelude.{
  ℕ, zero, suc, ◌/◌, ◌%◌, String, Bool, true, false, not, ◌&&◌, ◌||◌, ◌==◌, leb, Option, none, some,
  List, [], ◌∷◌, map, all, length, str_eq, if◌then◌else◌,
}
use clairveil.Prelude.Result.{Result, err, guard}
use clairveil.Tree.Shape.{strict_field}
use clairveil.Reservation.Types.{Error}
use clairveil.Reservation.Links.{is_blank}
use clairveil.Reservation.Audit.{codes, list_eq, hex_decode}
use clairveil.Reservation.Identity.{drop_space}
use clairveil.Reservation.Batch.Types.{
  BatchOutputRole, UserDisclosureMode, ExpectedOutputEvidence, ObservedOutputEvidence,
}

-- `strings.TrimSpace`, as a text.
trim_left : String → String
trim_left String.[] = ""
trim_left (String.◌∷◌ c s) =
    let rest = trim_left s in if is_blank (String.◌∷◌ c "") then rest else String.◌∷◌ c s

trim_right : String → String
trim_right String.[] = ""
trim_right (String.◌∷◌ c s) =
    let rest = trim_right s in if is_blank (String.◌∷◌ c s) then "" else String.◌∷◌ c rest

unfoldable pub trim_text : String → String
unfolding trim_left trim_right
trim_text s = trim_right (trim_left s)

-- `strings.TrimPrefix(s, "0x")`.
unfoldable pub drop_0x : List ℕ → List ℕ
drop_0x [] = []
drop_0x (c ∷ []) = c ∷ []
drop_0x (c ∷ d ∷ cs) = if c == b'0' && d == b'x' then cs else c ∷ d ∷ cs

unfoldable pub bare : String → List ℕ
unfolding drop_0x drop_space codes
bare s = reverse (drop_space (reverse (drop_space (drop_0x (codes s)))))

-- The text of `%d`, with fuel for its digits; a uint32 has at most ten.
digit_text : ℕ → String
digit_text n =
    if n == 0
    then "0"
    else if n == 1
    then "1"
    else if n == 2
    then "2"
    else if n == 3
    then "3"
    else if n == 4
    then "4"
    else if n == 5
    then "5"
    else if n == 6
    then "6"
    else if n == 7
    then "7"
    else if n == 8
    then "8"
    else "9"

unfoldable pub decimal_text : ℕ → ℕ → String
unfolding digit_text
decimal_text zero n = ""
decimal_text (suc fuel) n =
    let higher = decimal_text fuel (n / 10) in
    if leb n 9 then digit_text n else higher ++ digit_text (n % 10)

-- `value == strings.ToLower(value)`, for a text that decodes as hexadecimal.
unfoldable pub has_no_upper : List ℕ → Bool
has_no_upper = all (λ c. not (leb b'A' c && leb c b'Z'))

is_strict : Option (List ℕ) → Bool
is_strict none = false
is_strict (some bz) = elim (strict_field bz) [ none ↦ false | some _ ↦ true ]

-- `isCanonicalBatchFieldHex`.
unfoldable pub is_canonical_field_hex : String → Bool
unfolding has_no_upper is_strict
is_canonical_field_hex value =
    length (codes value) == 64 && has_no_upper (codes value) && is_strict (hex_decode (codes value))

-- `validBatchOutputRole`.
unfoldable pub is_valid_role : BatchOutputRole → Bool
is_valid_role (BatchOutputRole.other s) = false
is_valid_role _ = true

-- `a == b` on roles.
unfoldable pub role_eq : BatchOutputRole → BatchOutputRole → Bool
role_eq BatchOutputRole.payment BatchOutputRole.payment = true
role_eq BatchOutputRole.change BatchOutputRole.change = true
role_eq BatchOutputRole.padding BatchOutputRole.padding = true
role_eq (BatchOutputRole.other s) (BatchOutputRole.other t) = str_eq s t
role_eq _ _ = false

unfoldable pub is_undisclosed : UserDisclosureMode → Bool
is_undisclosed UserDisclosureMode.undisclosed = true
is_undisclosed _ = false

unfoldable pub is_disclosing : UserDisclosureMode → Bool
is_disclosing UserDisclosureMode.public_disclosure = true
is_disclosing UserDisclosureMode.recipient_encrypted = true
is_disclosing _ = false

-- `validateBatchUserEvidence`.
unfoldable pub validate_user_evidence : ExpectedOutputEvidence → Result Error Unit
unfolding is_undisclosed is_disclosing
validate_user_evidence e =
    if not (leb e.user_privacy_policy 7)
    then err Error.invalid_reservation
    else if e.user_privacy_policy == 0
    then guard (is_undisclosed e.user_disclosure_mode && is_blank e.user_disclosure_digest)
        Error.invalid_reservation
    else guard (is_disclosing e.user_disclosure_mode && not (is_blank e.user_disclosure_digest))
        Error.invalid_reservation

module _ (fold : ℕ → ℕ) where
  -- `equalNormalized`.
  unfoldable pub equal_normalized : String → String → Bool
  unfolding bare list_eq
  equal_normalized left right = list_eq (map fold (bare left)) (map fold (bare right))

  -- `observedOutputMatches`.
  unfoldable pub observed_output_matches : ExpectedOutputEvidence → ObservedOutputEvidence → Bool
  unfolding equal_normalized
  observed_output_matches expected observed =
      equal_normalized expected.commitment observed.commitment
      && equal_normalized expected.full_disclosure_digest observed.full_disclosure_digest
      && equal_normalized expected.user_disclosure_digest observed.user_disclosure_digest
      && (str_eq expected.recipient_hash ""
          || equal_normalized expected.recipient_hash observed.recipient_hash)
