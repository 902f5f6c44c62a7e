-- ===== src/Amount/Shielded.antt =====
-- x/privacy/types/amount.go: shielded amounts as big integers, and their way to and from 128 bits. An
-- integer is none where the pointer is nil.
use clairveil.Prelude.{
  ℕ, ◌+◌, ◌-◌, ◌*◌, ◌/◌, ◌%◌, ◌^◌, ◌<◌, ◌≤◌, ◌≡◌, ◌⊎◌, inl, inr, refl, sym, ap, subst, ◌∙◌, arith,
  Bool, true, false, not, ◌&&◌, ◌||◌, ◌==◌, ltb, leb, Option, none, some, List, [], ◌∷◌, Bool-cases,
}
use clairveil.Prelude.Int.{ℤ, pos, negsuc}
use clairveil.Prelude.Result.{Result, ok, err, guard, After, ◌>>◌}
use clairveil.Amount.{AmountError, Amount128, IsAmount, word, value, from_uint64}
use clairveil.Amount.Decimal.{is_digit, shift_in, parse_from, has_bad_form, parse}
use clairveil.Amount.Digits.{shift_in_lem}
use clairveil.Amount.Bytes.{put_bytes, get_bytes, from_bytes16, bytes16}

pub data ShieldedError : Type 0 where
  required negative too_large not_canonical : ShieldedError

-- `ValidateShieldedAmount`.
unfoldable pub validate_shielded_amount : Option ℤ → Result ShieldedError Unit
validate_shielded_amount none = err ShieldedError.required
validate_shielded_amount (some (negsuc n)) = err ShieldedError.negative
validate_shielded_amount (some (pos n)) = guard (ltb n (2 ^ 128)) ShieldedError.too_large

unfoldable pub all_digits : List ℕ → Bool
all_digits [] = true
all_digits (c ∷ cs) = is_digit c && all_digits cs

-- `isCanonicalNonNegativeDecimal`.
unfoldable pub is_canonical_decimal : List ℕ → Bool
unfolding all_digits
is_canonical_decimal [] = false
is_canonical_decimal (c ∷ []) = c == b'0' || (leb b'1' c && leb c b'9')
is_canonical_decimal (c ∷ d ∷ cs) = leb b'1' c && leb c b'9' && all_digits (d ∷ cs)

-- `SetString(value, 10)`, on digits.
unfoldable pub decimal : ℕ → List ℕ → ℕ
decimal acc [] = acc
decimal acc (c ∷ cs) = decimal (acc * 10 + (c - b'0')) cs

-- `ParseCanonicalShieldedAmount`.
unfoldable pub parse_canonical : List ℕ → Result ShieldedError ℤ
unfolding is_canonical_decimal decimal validate_shielded_amount
parse_canonical s = do
  guard (is_canonical_decimal s) ShieldedError.not_canonical
  let parsed = pos (decimal 0 s)
  validate_shielded_amount (some parsed)
  ok parsed

-- `FillBytes` on 16 bytes, and `FromBytes16`.
unfoldable pub filled : ℕ → Amount128
unfolding put_bytes from_bytes16
filled n = from_bytes16 (put_bytes 16 n [])

-- `Amount128FromBigInt`.
unfoldable pub amount128_from_big : Option ℤ → Result ShieldedError Amount128
unfolding validate_shielded_amount
amount128_from_big none = err ShieldedError.required
amount128_from_big (some (negsuc n)) = err ShieldedError.negative
amount128_from_big (some (pos n)) = do validate_shielded_amount (some (pos n)); ok (filled n)

-- `Amount128BigInt`.
unfoldable pub amount128_big : Amount128 → ℤ
unfolding bytes16 get_bytes
amount128_big a = pos (get_bytes 0 (bytes16 a))

decimal-ge : (acc : ℕ) (cs : List ℕ) → acc ≤ decimal acc cs
unfolding decimal
decimal-ge acc [] = omega arith
decimal-ge acc (c ∷ cs) = omega (arith, decimal-ge (acc * 10 + (c - b'0')) cs)

-- What `Parse` makes of digits, as a number.
abbrev Reads : Amount128 → List ℕ → Result AmountError Amount128 → Type 0
Reads a cs r =
    After r (λ b. IsAmount b × (all_digits cs ≡ true) × (value b ≡ decimal (value a) cs))
      (λ e. (all_digits cs ≡ false) ⊎ (2 ^ 128 ≤ decimal (value a) cs))

-- One digit further.
Reads-cons :
    (a b : Amount128) (c : ℕ) (cs : List ℕ) (r : Result AmountError Amount128)
    → is_digit c ≡ true
    → value b ≡ value a * 10 + (c - b'0')
    → Reads b cs r
    → Reads a (c ∷ cs) r
unfolding all_digits decimal
Reads-cons a b c cs (ok x) d e (v, digits, total) =
    (v, ground (arith, digits), total ∙ ap (λ n. decimal n cs) e)
Reads-cons a b c cs (err x) d e (inl bad) = inl (ground (arith, bad))
Reads-cons a b c cs (err x) d e (inr big) = inr (subst (λ n. 2 ^ 128 ≤ decimal n cs) e big)

pub parse_from-Reads : (cs : List ℕ) (a : Amount128) → IsAmount a → Reads a cs (parse_from a cs)
unfolding parse_from all_digits decimal
parse_from-Reads [] a v = (v, refl, refl)
parse_from-Reads (c ∷ cs) a v =
    go (is_digit c) (shift_in a (c - b'0')) refl
      (λ d. shift_in_lem a (c - b'0') v (ground (arith, d))) (λ b w. parse_from-Reads cs b w)
  where
    go :
        (d : Bool) (m : Result AmountError Amount128)
        → is_digit c ≡ d
        → (is_digit c ≡ true
            → After m
                (λ b. IsAmount b × (value b ≡ value a * 10 + (c - b'0')))
                (λ e. (e ≡ AmountError.exceeds) × (2 ^ 128 ≤ value a * 10 + (c - b'0'))))
        → ((b : Amount128) → IsAmount b → Reads b cs (parse_from b cs))
        → Reads a (c ∷ cs) (elim d [
          | false ↦ err AmountError.not_canonical
          | true ↦ elim m [ ok b ↦ parse_from b cs | err e ↦ err e ]
        ])
    go false m d shifted rest = inl (ground (arith, d))
    go true (ok b) d shifted rest =
        let (w, e) = shifted d in Reads-cons a b c cs (parse_from b cs) d e (rest b w)
    go true (err x) d shifted rest =
        let (_, e) = shifted d in inr (omega (arith, e, decimal-ge (value a * 10 + (c - b'0')) cs))

canonical_form : (s : List ℕ) → is_canonical_decimal s ≡ (not (has_bad_form s) && all_digits s)
unfolding is_canonical_decimal has_bad_form all_digits
canonical_form [] = refl
canonical_form (c ∷ []) = ground arith
canonical_form (c ∷ d ∷ cs) = ground arith

accepted :
    (s : List ℕ) (n : ℕ)
    → has_bad_form s ≡ false
    → all_digits s ≡ true
    → decimal 0 s ≡ n
    → n < 2 ^ 128
    → parse_canonical s ≡ ok (pos n)
unfolding parse_canonical
accepted s n form digits e small = ground (arith, canonical_form s)

refused :
    (s : List ℕ)
    → (has_bad_form s ≡ true) ⊎ (all_digits s ≡ false) ⊎ (2 ^ 128 ≤ decimal 0 s)
    → (x : ShieldedError) × (parse_canonical s ≡ err x)
unfolding parse_canonical
refused s h = elim (Bool-cases (is_canonical_decimal s)) [
  | inl c ↦ (ShieldedError.too_large, ground (arith, canonical_form s))
  | inr n ↦ (ShieldedError.not_canonical, rw n refl)
]

-- Where `Parse` returns an amount, it has two 64-bit limbs and `ParseCanonicalShieldedAmount` returns its
-- value as a big integer; where `Parse` fails, `ParseCanonicalShieldedAmount` fails.
pub parse_canonical-parse :
    (s : List ℕ)
    → After
        (parse s)
        (λ a. IsAmount a × (parse_canonical s ≡ ok (pos (value a))))
        (λ e. (x : ShieldedError) × (parse_canonical s ≡ err x))
unfolding parse
parse_canonical-parse s = elim (Bool-cases (has_bad_form s)) [
  | inl bad ↦ rw bad (refused s (inl bad))
  | inr form ↦
      rw form
        (go (parse_from (from_uint64 0) s) form (parse_from-Reads s (from_uint64 0) zero_sound))
]
  where
    zero_sound : IsAmount (from_uint64 0)
    zero_sound = record { hi_small = omega arith; lo_small = omega arith }

    go :
        (r : Result AmountError Amount128)
        → has_bad_form s ≡ false
        → Reads (from_uint64 0) s r
        → After r
            (λ a. IsAmount a × (parse_canonical s ≡ ok (pos (value a))))
            (λ e. (x : ShieldedError) × (parse_canonical s ≡ err x))
    go (ok a) form (v, digits, total) =
        (v, accepted s (value a) form digits (sym total) (omega (arith, v.hi_small, v.lo_small)))
    go (err e) form (inl bad) = refused s (inr (inl bad))
    go (err e) form (inr big) = refused s (inr (inr big))

filled_hi : (n : ℕ) → n < 2 ^ 128 → (filled n).hi ≡ n / word
unfolding filled get_bytes
filled_hi n h = omega arith

filled_lo : (n : ℕ) → (filled n).lo ≡ n % word
unfolding filled get_bytes
filled_lo n = omega arith

amount128_big_lem : (a : Amount128) → IsAmount a → amount128_big a ≡ pos (value a)
unfolding amount128_big
amount128_big_lem a v = ap pos (omega arith)

-- Where `Amount128FromBigInt` returns an amount, it has two 64-bit limbs and `Amount128BigInt` gives the
-- integer back; where it fails, its error is that of `ValidateShieldedAmount`.
pub amount128_from_big-big :
    (z : Option ℤ)
    → After
        (amount128_from_big z)
        (λ a. IsAmount a × (z ≡ some (amount128_big a)))
        (λ e. validate_shielded_amount z ≡ err e)
unfolding amount128_from_big
amount128_from_big-big none = refl
amount128_from_big-big (some (negsuc n)) = refl
amount128_from_big-big (some (pos n)) = elim (Bool-cases (ltb n (2 ^ 128))) [
  | inl fits ↦
      let hi = filled_hi n (ground (arith, fits)) in
      let lo = filled_lo n in
      let v : IsAmount (filled n) = record {
        hi_small = ground (arith, hi, fits);
        lo_small = omega (arith, lo);
      } in
      rw fits (
        v,
        ap (λ z. some z) (sym (amount128_big_lem (filled n) v ∙ ap pos (omega (arith, hi, lo)))),
      )
  | inr big ↦ rw big refl
]
