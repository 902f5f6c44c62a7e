-- ===== src/Amount/Decimal.antt =====
-- amount.go: `Parse` and `String`. A text is the list of its bytes.
use clairveil.Prelude.{
  ℕ, zero, suc, ◌+◌, ◌-◌, ◌*◌, ◌/◌, ◌%◌, Bool, true, false, ◌&&◌, ◌==◌, leb, if◌then◌else◌, Option,
  none, some, List, [], ◌∷◌,
}
use clairveil.Prelude.Result.{Result, ok, err}
use clairveil.Amount.{AmountError, Amount128, word, is_zero, from_uint64}

abbrev pub is_digit : ℕ → Bool
is_digit c = leb b'0' c && leb c b'9'

-- One round of the loop of `Parse`, on the value of a digit: `bits.Mul64` gives the high and the low
-- word of a product, and the test is that none of the three carries is set.
unfoldable pub shift_in : Amount128 → ℕ → Result AmountError Amount128
shift_in a digit =
    let carry = a.lo * 10 / word in
    let overflow = a.hi * 10 / word in
    let hi = a.hi * 10 % word + carry in
    let lo = a.lo * 10 % word + digit in
    let hi' = hi % word + lo / word in
    if overflow == 0 && hi / word == 0 && hi' / word == 0
    then ok (record { hi = hi' % word; lo = lo % word })
    else err AmountError.exceeds

-- The loop of `Parse`.
unfoldable pub parse_from : Amount128 → List ℕ → Result AmountError Amount128
parse_from a [] = ok a
parse_from a (c ∷ cs) = elim (is_digit c) [
  | false ↦ err AmountError.not_canonical
  | true ↦ elim (shift_in a (c - b'0')) [ ok b ↦ parse_from b cs | err e ↦ err e ]
]

-- `s == "" || len(s) > 1 && s[0] == '0'`.
unfoldable pub has_bad_form : List ℕ → Bool
has_bad_form [] = true
has_bad_form (c ∷ []) = false
has_bad_form (c ∷ d ∷ cs) = c == b'0'

-- `Parse`.
unfoldable pub parse : List ℕ → Result AmountError Amount128
unfolding has_bad_form
parse s = if has_bad_form s then err AmountError.not_canonical else parse_from (from_uint64 0) s

-- The two `bits.Div64` of `String`, and the remainder.
unfoldable pub quotient : Amount128 → Amount128
quotient a = record { hi = a.hi / 10; lo = (a.hi % 10 * word + a.lo) / 10 }

abbrev pub remainder : Amount128 → ℕ
remainder a = (a.hi % 10 * word + a.lo) % 10

-- The loop of `String`, with the places that are left in the array; none is the panic of an index that
-- is out of range.
unfoldable pub render : ℕ → Amount128 → List ℕ → Option (List ℕ)
unfolding quotient
render zero a digits = if is_zero a then some digits else none
render (suc room) a digits =
    let rest = render room (quotient a) ((remainder a + b'0') ∷ digits) in
    if is_zero a then some digits else rest

-- `String`.
unfoldable pub to_string : Amount128 → Option (List ℕ)
to_string a = if is_zero a then some (b'0' ∷ []) else render 39 a []
