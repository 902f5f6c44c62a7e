-- ===== src/Prelude/Result.antt =====
-- Go's `(value, error)` pairs: a value, or one of a component's errors.
use mathlib.Core.Path.{◌≡◌, refl, ap}
use mathlib.Core.Logic.{◌≢◌}
use mathlib.Core.Bool.{Bool, true, false}
use mathlib.Core.Option.{Option, none, some}

pub data Result (E A : Type 0) : Type 0 where
  ok : A → Result E A
  err : E → Result E A

-- `v, ok := m[k]; if !ok { return e }`.
abbrev pub or_fail : {E A : Type 0} → Option A → E → Result E A
or_fail (some v) missing = ok v
or_fail none missing = err missing

-- `if !c { return e }`.
abbrev pub guard : {E : Type 0} → Bool → E → Result E (Unit {0})
guard false failure = err failure
guard true failure = ok tt

infixl 5 ◌>>=◌ ◌>>◌
-- `if err != nil { return err }`.
abbrev pub ◌>>=◌ : {E A B : Type 0} → Result E A → (A → Result E B) → Result E B
err e >>= rest = err e
ok v >>= rest = rest v

abbrev pub ◌>>◌ : {E B : Type 0} → Result E (Unit {0}) → Result E B → Result E B
first >> rest = first >>= λ _. rest

-- What holds of the result: one thing of a value, another of an error.
abbrev pub After : {E A : Type 0} → Result E A → (A → Type 0) → (E → Type 0) → Type 0
After (ok a) P Q = P a
After (err e) P Q = Q e

-- If a sequence returned a value, then its first part did, and so did the rest from there.
pub >>=-eq-ok :
    {E V W : Type 0} (first : Result E V) (rest : V → Result E W) {w : W}
    → (first >>= rest) ≡ ok w
    → (v : V) × (first ≡ ok v) × (rest v ≡ ok w)
>>=-eq-ok (err failure) rest returned = cc
>>=-eq-ok (ok v) rest returned = (v, refl, returned)

-- The same, handed on.
pub >>=-then :
    {E V W P : Type 0} (first : Result E V) (rest : V → Result E W) {w : W}
    → (first >>= rest) ≡ ok w
    → ((v : V) → first ≡ ok v → rest v ≡ ok w → P)
    → P
>>=-then first rest returned next =
    let (v, gave, last) = >>=-eq-ok first rest returned in next v gave last

value_or : {E A : Type 0} → A → Result E A → A
value_or d (ok a) = a
value_or d (err e) = d

pub ok-injective : {E A : Type 0} {a b : A} → ◌≡◌ {A = Result E A} (ok a) (ok b) → a ≡ b
unfolding value_or
ok-injective {a} h = ap (value_or a) h

-- A result that is no value is an error.
pub is_error : {E A : Type 0} (r : Result E A) → ((a : A) → r ≢ ok a) → (e : E) × (r ≡ err e)
is_error (ok a) h = absurd (h a refl)
is_error (err e) h = (e, refl)
