-- ===== src/Amount/Tests.antt =====
-- Amounts on concrete inputs.
use clairveil.Prelude.{ℕ, ◌+◌, ◌-◌, ◌^◌, ◌≡◌, ◌≤◌, ◌<◌, refl, arith, some, List, [], ◌∷◌}
use clairveil.Prelude.Int.{pos}
use clairveil.Prelude.Result.{ok, err, After}
use clairveil.Amount.{AmountError, Amount128, IsAmount, value, add, sub, word}
use clairveil.Amount.Arith.{add_lem, sub_lem}
use clairveil.Amount.Decimal.{parse, parse_from, shift_in, has_bad_form, to_string}
use clairveil.Amount.RoundTrip.{parse-to_string, to_string-parse}
use clairveil.Amount.Bytes.{bytes32, from_bytes32, from_bytes32-bytes32}
use clairveil.Amount.Shielded.{
  ShieldedError, parse_canonical, validate_shielded_amount, amount128_from_big, amount128_big,
  parse_canonical-parse, amount128_from_big-big,
}

-- 2^64 + 5 and 2^64 - 1.
abbrev above : Amount128
above = record { hi = 1; lo = 5 }

abbrev below : Amount128
below = record { hi = 0; lo = word - 1 }

above-IsAmount : IsAmount above
above-IsAmount = record { hi_small = omega arith; lo_small = omega arith }

below-IsAmount : IsAmount below
below-IsAmount = record { hi_small = omega arith; lo_small = omega arith }

abbrev forty_two : List ℕ
forty_two = b'4' ∷ b'2' ∷ []

add_lem_example :
    After
      (add above below)
      (λ c. IsAmount c × (value c ≡ value above + value below))
      (λ e. (e ≡ AmountError.exceeds) × (2 ^ 128 ≤ value above + value below))
add_lem_example = add_lem above below above-IsAmount below-IsAmount

sub_lem_example :
    After
      (sub above below)
      (λ c. IsAmount c × (value c + value below ≡ value above))
      (λ e. (e ≡ AmountError.underflow) × (value above < value below))
sub_lem_example = sub_lem above below above-IsAmount below-IsAmount

-- Borrows.
sub_run : sub above below ≡ ok (record { hi = 0; lo = 6 })
unfolding sub
sub_run = refl

parse-to_string_example : (s : List ℕ) × (to_string above ≡ some s) × (parse s ≡ ok above)
parse-to_string_example = parse-to_string above above-IsAmount

forty_two_read : parse forty_two ≡ ok (record { hi = 0; lo = 42 })
unfolding parse parse_from shift_in has_bad_form
forty_two_read = refl

to_string-parse_example :
    (to_string (record { hi = 0; lo = 42 }) ≡ some forty_two)
    × IsAmount (record { hi = 0; lo = 42 })
to_string-parse_example = to_string-parse forty_two (record { hi = 0; lo = 42 }) forty_two_read

from_bytes32-bytes32_example : from_bytes32 (bytes32 above) ≡ ok above
from_bytes32-bytes32_example = from_bytes32-bytes32 above above-IsAmount

parse_canonical-parse_example :
    After
      (parse forty_two)
      (λ a. IsAmount a × (parse_canonical forty_two ≡ ok (pos (value a))))
      (λ e. (x : ShieldedError) × (parse_canonical forty_two ≡ err x))
parse_canonical-parse_example = parse_canonical-parse forty_two

amount128_from_big-big_example :
    After
      (amount128_from_big (some (pos 300)))
      (λ a. IsAmount a × (some (pos 300) ≡ some (amount128_big a)))
      (λ e. validate_shielded_amount (some (pos 300)) ≡ err e)
amount128_from_big-big_example = amount128_from_big-big (some (pos 300))
