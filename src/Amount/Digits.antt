-- ===== src/Amount/Digits.antt =====
-- amount.go: the steps of `Parse` and `String` on the numbers that the limbs stand for.
use clairveil.Prelude.{
  ℕ, zero, suc, ◌+◌, ◌-◌, ◌*◌, ◌/◌, ◌%◌, ◌^◌, ◌<◌, ◌≤◌, ◌≡◌, refl, ap, ◌∙◌, arith, true, ◌==◌, some,
  List, ◌∷◌, Bool-cases, inl, inr,
}
use native.Mathlib.Nat.{pow-suc}
use clairveil.Prelude.Result.{Result, ok, err, After}
use clairveil.Amount.{AmountError, Amount128, IsAmount, value, is_zero}
use clairveil.Amount.Arith.{value_determines}
use clairveil.Amount.Decimal.{shift_in, parse_from, quotient, remainder, render}

-- Shifting in a digit multiplies by ten and adds it, and fails exactly if that needs more than 128 bits.
pub shift_in_lem :
    (a : Amount128) (digit : ℕ)
    → IsAmount a
    → digit < 10
    → After
        (shift_in a digit)
        (λ b. IsAmount b × (value b ≡ value a * 10 + digit))
        (λ e. (e ≡ AmountError.exceeds) × (2 ^ 128 ≤ value a * 10 + digit))
unfolding shift_in
shift_in_lem a digit v d = ground arith

pub quotient_lem :
    (a : Amount128)
    → IsAmount a
    → IsAmount (quotient a) × (value (quotient a) ≡ value a / 10) × (remainder a ≡ value a % 10)
unfolding quotient
quotient_lem a v = ground arith

pub is_zero_iff : (a : Amount128) → is_zero a ≡ (value a == 0)
is_zero_iff a = ground arith

-- With room for all digits `String` does not run out of its array.
pub render_total :
    (room : ℕ) (a : Amount128) (digits : List ℕ)
    → IsAmount a
    → value a < 10 ^ room
    → (s : List ℕ) × (render room a digits ≡ some s)
unfolding render
render_total zero a digits v h = (digits, ground arith)
render_total (suc room) a digits v h = elim (Bool-cases (is_zero a)) [
  | inl z ↦ (digits, rw z refl)
  | inr n ↦
      let (v', e, _) = quotient_lem a v in
      let (s, found) =
        render_total room (quotient a) ((remainder a + b'0') ∷ digits) v'
          (omega (arith, pow-suc 10 room)) in
      (s, rw n found)
]

-- The result does not depend on the room.
pub render_agree :
    (room room' : ℕ) (a : Amount128) (digits s s' : List ℕ)
    → render room a digits ≡ some s
    → render room' a digits ≡ some s'
    → s ≡ s'
unfolding render
render_agree zero zero a digits s s' h h' = ground arith
render_agree zero (suc room') a digits s s' h h' = ground arith
render_agree (suc room) zero a digits s s' h h' = ground arith
render_agree (suc room) (suc room') a digits s s' h h' =
    ground (arith, render_agree room room' (quotient a) ((remainder a + b'0') ∷ digits) s s')

-- Shifting in the remainder undoes the division.
shift_in-quotient :
    (a : Amount128) → IsAmount a → shift_in (quotient a) (remainder a + b'0' - b'0') ≡ ok a
shift_in-quotient a v =
    go (shift_in (quotient a) digit) (shift_in_lem (quotient a) digit v' (omega arith))
  where
    digit : ℕ
    digit = remainder a + b'0' - b'0'

    v' : IsAmount (quotient a)
    v' = (quotient_lem a v).0

    go :
        (r : Result AmountError Amount128)
        → After r
            (λ b. IsAmount b × (value b ≡ value (quotient a) * 10 + digit))
            (λ e. (e ≡ AmountError.exceeds) × (2 ^ 128 ≤ value (quotient a) * 10 + digit))
        → r ≡ ok a
    go (ok b) (w, e) = ap ok (value_determines b a w v (omega (arith, quotient_lem a v, e)))
    go (err x) (_, e) = absurd (omega (arith, quotient_lem a v, e))

pub parse-quotient :
    (a : Amount128) (digits : List ℕ)
    → IsAmount a
    → parse_from (quotient a) ((remainder a + b'0') ∷ digits) ≡ parse_from a digits
unfolding parse_from
parse-quotient a digits v = ground (arith, shift_in-quotient a v)

module _ (o : Amount128) (w : IsAmount o) (z : value o ≡ 0) where
  parse_empty :
      (a : Amount128) (digits s : List ℕ)
      → IsAmount a
      → is_zero a ≡ true
      → s ≡ digits
      → parse_from o s ≡ parse_from a digits
  parse_empty a digits s v e same =
      ap (λ (b : Amount128). parse_from b s) (value_determines o a w v (ground arith))
      ∙ ap (parse_from a) same

  -- Parsing takes off the digits that rendering puts on.
  pub parse-render :
      (room : ℕ) (a : Amount128) (digits s : List ℕ)
      → IsAmount a
      → render room a digits ≡ some s
      → parse_from o s ≡ parse_from a digits
  unfolding render
  parse-render zero a digits s v h = parse_empty a digits s v (ground arith) (ground arith)
  parse-render (suc room) a digits s v h = elim (Bool-cases (is_zero a)) [
    | inl empty ↦ parse_empty a digits s v empty (ground arith)
    | inr n ↦
        let (v', _, _) = quotient_lem a v in
        parse-render room (quotient a) ((remainder a + b'0') ∷ digits) s v' (rw n at h)
        ∙ parse-quotient a digits v
  ]
