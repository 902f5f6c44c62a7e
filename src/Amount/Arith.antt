-- ===== src/Amount/Arith.antt =====
-- amount.go: the arithmetic on limbs is that of the numbers below 2^128.
use clairveil.Prelude.{ℕ, ◌+◌, ◌^◌, ◌<◌, ◌≤◌, ◌≡◌, arith, ◌==◌, ltb, if◌then◌else◌}
use clairveil.Prelude.Int.{pos, negsuc}
use clairveil.Prelude.Result.{After}
use clairveil.Amount.{AmountError, Amount128, IsAmount, value, cmp, add, sub}

pub of_parts : (a : Amount128) (h l : ℕ) → a.hi ≡ h → a.lo ≡ l → a ≡ record { hi = h; lo = l }
of_parts a h l p q = ground arith

-- An amount is determined by its value.
pub value_determines : (a b : Amount128) → IsAmount a → IsAmount b → value a ≡ value b → a ≡ b
value_determines a b v w e =
    let p : a.hi ≡ b.hi = omega arith in let q : a.lo ≡ b.lo = omega arith in ground arith

-- On amounts of two 64-bit limbs, `Add` returns such an amount, of which the value is the sum; it
-- fails, as too large, only if the sum is 2^128 or more.
pub add_lem :
    (a b : Amount128)
    → IsAmount a
    → IsAmount b
    → After
        (add a b)
        (λ c. IsAmount c × (value c ≡ value a + value b))
        (λ e. (e ≡ AmountError.exceeds) × (2 ^ 128 ≤ value a + value b))
unfolding add
add_lem a b v w = ground arith

-- On amounts of two 64-bit limbs, `Sub` returns such an amount, which with the second gives the
-- first; it fails, as an underflow, only if the first is the smaller.
pub sub_lem :
    (a b : Amount128)
    → IsAmount a
    → IsAmount b
    → After
        (sub a b)
        (λ c. IsAmount c × (value c + value b ≡ value a))
        (λ e. (e ≡ AmountError.underflow) × (value a < value b))
unfolding sub
sub_lem a b v w = ground arith

-- `Cmp` compares the values.
pub cmp_lem :
    (a b : Amount128)
    → IsAmount a
    → IsAmount b
    → cmp a b
      ≡ (if ltb (value a) (value b) then negsuc 0 else if value a == value b then pos 0 else pos 1)
unfolding cmp
cmp_lem a b v w = ground arith
