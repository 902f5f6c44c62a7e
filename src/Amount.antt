-- ===== src/Amount.antt =====
-- x/privacy/amount/amount.go: amounts of 128 bits as two 64-bit limbs, and the operations of math/bits
-- that the code calls, with their carries.
pub mod Arith
pub mod Decimal
pub mod Digits
pub mod RoundTrip
pub mod Bytes
pub mod Shielded
pub mod Tests
use clairveil.Prelude.{
  ℕ, ◌+◌, ◌-◌, ◌*◌, ◌/◌, ◌%◌, ◌^◌, ◌<◌, ◌≡◌, arith, Bool, ◌&&◌, ◌||◌, ◌==◌, ltb, if◌then◌else◌,
}
use clairveil.Prelude.Int.{ℤ, pos, negsuc}
use clairveil.Prelude.Result.{Result, ok, err}

abbrev pub word : ℕ
word = 2 ^ 64

-- The errors of the package.
pub data AmountError : Type 0 where
  not_canonical exceeds underflow : AmountError

pub record Amount128 : Type 0 where
  pub hi : ℕ
  pub lo : ℕ

-- Both limbs are 64-bit words.
pub record IsAmount (a : Amount128) : Type 0 where
  pub hi_small : a.hi < word
  pub lo_small : a.lo < word

-- The number that the limbs stand for.
abbrev pub value : Amount128 → ℕ
value a = a.hi * word + a.lo

-- `FromUint64`.
abbrev pub from_uint64 : ℕ → Amount128
from_uint64 v = record { hi = 0; lo = v }

abbrev pub is_zero : Amount128 → Bool
is_zero a = a.hi == 0 && a.lo == 0

-- `Cmp`.
unfoldable pub cmp : Amount128 → Amount128 → ℤ
cmp a b =
    if ltb a.hi b.hi || (a.hi == b.hi && ltb a.lo b.lo)
    then negsuc 0
    else if a.hi == b.hi && a.lo == b.lo
    then pos 0
    else pos 1

-- `Add`: `bits.Add64` gives the sum modulo 2^64 and the carry.
unfoldable pub add : Amount128 → Amount128 → Result AmountError Amount128
add a b =
    let lo = a.lo + b.lo in
    let hi = a.hi + b.hi + lo / word in
    if hi / word == 0
    then ok (record { hi = hi % word; lo = lo % word })
    else err AmountError.exceeds

-- `bits.Sub64`: the difference modulo 2^64, and the borrow.
abbrev pub difference : ℕ → ℕ → ℕ → ℕ
difference x y borrow = (x + 2 * word - y - borrow) % word

abbrev pub borrow_of : ℕ → ℕ → ℕ → ℕ
borrow_of x y borrow = if ltb x (y + borrow) then 1 else 0

-- `Sub`.
unfoldable pub sub : Amount128 → Amount128 → Result AmountError Amount128
sub a b =
    let borrow = borrow_of a.lo b.lo 0 in
    if borrow_of a.hi b.hi borrow == 0
    then ok (record { hi = difference a.hi b.hi borrow; lo = difference a.lo b.lo 0 })
    else err AmountError.underflow
