-- ===== src/Amount/RoundTrip.antt =====
-- amount.go: `Parse` and `String` are inverse to each other.
use clairveil.Prelude.{
  ℕ, zero, suc, ◌+◌, ◌-◌, ◌*◌, ◌^◌, ◌<◌, ◌≤◌, ◌≡◌, ◌≢◌, refl, ap, subst, ◌∙◌, arith, Bool, true,
  false, ◌==◌, some, List, [], ◌∷◌, Bool-cases, inl, inr,
}
use clairveil.Prelude.Result.{Result, ok, err, After, ok-injective}
use clairveil.Amount.{AmountError, Amount128, IsAmount, value, is_zero, from_uint64}
use clairveil.Amount.Arith.{value_determines}
use clairveil.Amount.Decimal.{
  is_digit, shift_in, parse_from, has_bad_form, parse, quotient, remainder, render, to_string,
}
use clairveil.Amount.Digits.{shift_in_lem, quotient_lem, render_total, render_agree, parse-render}

null-IsAmount : IsAmount (from_uint64 0)
null-IsAmount = record { hi_small = omega arith; lo_small = omega arith }

first_digit : (c : ℕ) (digits : List ℕ) → c ≢ b'0' → has_bad_form (c ∷ digits) ≡ false
unfolding has_bad_form
first_digit c [] n = refl
first_digit c (d ∷ digits) n = ground arith

render_zero :
    (room : ℕ) (a : Amount128) (digits s : List ℕ)
    → is_zero a ≡ true
    → render room a digits ≡ some s
    → s ≡ digits
unfolding render
render_zero zero a digits s z h = ground arith
render_zero (suc room) a digits s z h = ground arith

-- The first digit of a rendered amount that is not zero is not 0.
render-has_bad_form :
    (room : ℕ) (a : Amount128) (digits s : List ℕ)
    → IsAmount a
    → is_zero a ≡ false
    → render room a digits ≡ some s
    → has_bad_form s ≡ false
unfolding render
render-has_bad_form zero a digits s v n h = ground arith
render-has_bad_form (suc room) a digits s v n h =
    let written : render room (quotient a) ((remainder a + b'0') ∷ digits) ≡ some s = rw n at h in
    let (v', e, r) = quotient_lem a v in
    elim (Bool-cases (is_zero (quotient a))) [
      | inl last ↦
          let same = render_zero room (quotient a) ((remainder a + b'0') ∷ digits) s last written in
          let low : (remainder a + b'0') ≢ b'0' = ground (arith, quotient_lem a v) in
          ap has_bad_form same ∙ first_digit (remainder a + b'0') digits low
      | inr more ↦
          render-has_bad_form room (quotient a) ((remainder a + b'0') ∷ digits) s v' more written
    ]

parse_read :
    (a : Amount128) (s : List ℕ)
    → has_bad_form s ≡ false
    → parse_from (from_uint64 0) s ≡ parse_from a []
    → parse s ≡ ok a
unfolding parse parse_from
parse_read a s form read = ground arith

parse_zero : (a : Amount128) → is_zero a ≡ true → parse (b'0' ∷ []) ≡ ok a
unfolding parse parse_from has_bad_form shift_in
parse_zero a z = ground arith

-- On an amount of two 64-bit limbs, `String` ends within its array of 39 digits, and `Parse` reads
-- from its text the same amount.
pub parse-to_string :
    (a : Amount128) → IsAmount a → (s : List ℕ) × (to_string a ≡ some s) × (parse s ≡ ok a)
unfolding to_string
parse-to_string a v = elim (Bool-cases (is_zero a)) [
  | inl z ↦ (b'0' ∷ [], rw z refl, parse_zero a z)
  | inr n ↦
      let (s, written) = render_total 39 a [] v (omega arith) in
      let read = parse-render (from_uint64 0) null-IsAmount (omega arith) 39 a [] s v written in
      (s, rw n written, parse_read a s (render-has_bad_form 39 a [] s v n written) read)
]

-- What a digit that was shifted in leaves: the division takes it off again.
record Shifted (a : Amount128) (c : ℕ) (b : Amount128) : Type 0 where
  sound : IsAmount b
  total : value b ≡ value a * 10 + (c - b'0')
  whole : quotient b ≡ a
  digit : remainder b + b'0' ≡ c

shift_in-Shifted :
    (a b : Amount128) (c : ℕ)
    → IsAmount a
    → is_digit c ≡ true
    → shift_in a (c - b'0') ≡ ok b
    → Shifted a c b
shift_in-Shifted a b c v d h =
    let small : c - b'0' < 10 = ground arith in
    let (w, e) =
      subst
        (λ r.
          After r (λ x. IsAmount x × (value x ≡ value a * 10 + (c - b'0')))
            (λ x. (x ≡ AmountError.exceeds) × (2 ^ 128 ≤ value a * 10 + (c - b'0'))))
        h (shift_in_lem a (c - b'0') v small) in
    let (w', q, r) = quotient_lem b w in
    record {
      sound = w;
      total = e;
      whole = value_determines (quotient b) a w' v (omega (arith, q, e));
      digit = ground (arith, q, r, e, small);
    }

parse_from-cons :
    (a b : Amount128) (c : ℕ) (cs : List ℕ)
    → IsAmount a
    → parse_from a (c ∷ cs) ≡ ok b
    → (x : Amount128) × (parse_from x cs ≡ ok b) × Shifted a c x
parse_from-cons a b c cs v h =
    go (is_digit c) (shift_in a (c - b'0')) refl refl (unfold parse_from in h)
  where
    go :
        (d : Bool) (m : Result AmountError Amount128)
        → is_digit c ≡ d
        → shift_in a (c - b'0') ≡ m
        → ◌≡◌ {A = Result AmountError Amount128}
            (elim d [
              | false ↦ err AmountError.not_canonical
              | true ↦ elim m [ ok x ↦ parse_from x cs | err e ↦ err e ]
            ])
            (ok b)
        → (x : Amount128) × (parse_from x cs ≡ ok b) × Shifted a c x
    go false m e f g = absurd (cc)
    go true (err x) e f g = absurd (cc)
    go true (ok x) e f g = (x, g, shift_in-Shifted a x c v e f)

-- The digits that were shifted in come back out.
render-parse :
    (cs : List ℕ) (room : ℕ) (a b : Amount128) (s : List ℕ)
    → IsAmount a
    → is_zero a ≡ false
    → parse_from a cs ≡ ok b
    → render room a cs ≡ some s
    → (more : ℕ) × (render more b [] ≡ some s) × (is_zero b ≡ false) × IsAmount b
unfolding parse_from
render-parse [] room a b s v n h w =
    let e : a ≡ b = ok-injective h in (room, rw (← e) w, rw (← e) n, rw (← e) v)
render-parse (c ∷ cs) room a b s v n h w =
    let (x, rest, shifted) = parse_from-cons a b c cs v h in
    let more : is_zero x ≡ false = ground (arith, shifted.total) in
    let back : render (suc room) x cs ≡ some s =
      unfold render in rw (more, shifted.whole, shifted.digit) w in
    render-parse cs (suc room) x b s shifted.sound more rest back

parse-form :
    (s : List ℕ) (a : Amount128)
    → parse s ≡ ok a
    → (has_bad_form s ≡ false) × (parse_from (from_uint64 0) s ≡ ok a)
unfolding parse
parse-form s a h = ground arith

one_digit :
    (x o : Amount128) (c : ℕ) (cs : List ℕ)
    → is_zero x ≡ false
    → quotient x ≡ o
    → remainder x + b'0' ≡ c
    → is_zero o ≡ true
    → render 1 x cs ≡ some (c ∷ cs)
unfolding render
one_digit x o c cs n q r z =
    let z' : is_zero (quotient x) ≡ true = ap is_zero q ∙ z in rw (n, z', r) refl

-- A text that `Parse` accepts and that does not begin with 0.
string_of_digits :
    (c : ℕ) (cs : List ℕ) (a : Amount128)
    → c ≢ b'0'
    → parse_from (from_uint64 0) (c ∷ cs) ≡ ok a
    → (to_string a ≡ some (c ∷ cs)) × IsAmount a
unfolding to_string
string_of_digits c cs a n h =
    let (x, rest, shifted) = parse_from-cons (from_uint64 0) a c cs null-IsAmount h in
    let more : is_zero x ≡ false =
      ground (arith, shifted.total, shifted.digit, quotient_lem x shifted.sound) in
    let back : render 1 x cs ≡ some (c ∷ cs) =
      one_digit x (from_uint64 0) c cs more shifted.whole shifted.digit refl in
    let (room, written, filled, v) = render-parse cs 1 x a (c ∷ cs) shifted.sound more rest back in
    let (s, total) = render_total 39 a [] v (omega arith) in
    (rw filled (total ∙ ap some (render_agree 39 room a [] s (c ∷ cs) total written)), v)

zero_text :
    (c : ℕ) (a : Amount128)
    → c ≡ b'0'
    → parse_from (from_uint64 0) (c ∷ []) ≡ ok a
    → (to_string a ≡ some (c ∷ [])) × IsAmount a
unfolding to_string
zero_text c a z h =
    let (x, rest, shifted) = parse_from-cons (from_uint64 0) a c [] null-IsAmount h in
    let e : x ≡ a = unfold parse_from in ok-injective rest in
    let empty : is_zero a ≡ true = rw (← e) (ground (arith, shifted.total)) in
    (rw (empty, z) refl, rw (← e) shifted.sound)

-- If `Parse` accepts a text, the amount that it returns has two 64-bit limbs, and `String` writes it as
-- that same text.
pub to_string-parse :
    (s : List ℕ) (a : Amount128) → parse s ≡ ok a → (to_string a ≡ some s) × IsAmount a
unfolding has_bad_form
to_string-parse [] a h = let (form, _) = parse-form [] a h in absurd (cc form)
to_string-parse (c ∷ []) a h = elim (Bool-cases (c == b'0')) [
  | inl z ↦ zero_text c a (ground arith) (parse-form (c ∷ []) a h).1
  | inr n ↦ string_of_digits c [] a (ground arith) (parse-form (c ∷ []) a h).1
]
to_string-parse (c ∷ d ∷ cs) a h =
    let (form, read) = parse-form (c ∷ d ∷ cs) a h in
    string_of_digits c (d ∷ cs) a (ground (arith, form)) read
