-- ===== src/Prelude/Exec.antt =====
-- A method of a mutable object that may fail. The state comes back beside an error too, since what
-- was written before the error stays written.
use mathlib.Core.Bool.{Bool, true, false}
use mathlib.Core.Path.{◌≡◌, refl, ◌∙◌}
use mathlib.Core.Logic.{◌≢◌}
use clairveil.Prelude.Result.{Result, ok, err}

abbrev pub Exec : Type 0 → Type 0 → Type 0 → Type 0
Exec S E A = S → Result E A × S

module _ {S E A : Type 0} where
  abbrev pub pure : A → Exec S E A
  pure a s = (ok a, s)

  abbrev pub raise : E → Exec S E A
  raise e s = (err e, s)

  abbrev pub lift : Result E A → Exec S E A
  lift r s = (r, s)

  abbrev pub gets : (S → A) → Exec S E A
  gets f s = (ok (f s), s)

  abbrev pub reads : (S → Result E A) → Exec S E A
  reads f s = (f s, s)

module _ {S E : Type 0} where
  abbrev pub modify : (S → S) → Exec S E (Unit {0})
  modify f s = (ok tt, f s)

  abbrev pub check : Bool → E → Exec S E (Unit {0})
  check true e s = (ok tt, s)
  check false e s = (err e, s)

infixl 5 ◌>>=◌ ◌>>◌
abbrev pub continue : {S E A B : Type 0} → Result E A → (A → Exec S E B) → Exec S E B
continue (ok a) f s = f a s
continue (err e) f s = (err e, s)

abbrev pub ◌>>=◌ : {S E A B : Type 0} → Exec S E A → (A → Exec S E B) → Exec S E B
◌>>=◌ m f s = let (r, s') = m s in continue r f s'

abbrev pub ◌>>◌ : {S E A B : Type 0} → Exec S E A → Exec S E B → Exec S E B
m >> n = m >>= λ _. n

-- A method that leaves the part `f` of the state as it was.
abbrev pub Leaves : {S E A C : Type 0} → (S → C) → Exec S E A → Type 0
Leaves {S} f m = (s : S) → f (m s).1 ≡ f s

-- A sequence that returned a value ran its rest.
pub continue-eq-ok :
    {S E A B : Type 0} (r : Result E A) (g : A → Exec S E B) (s : S) (b : B)
    → (continue r g s).0 ≡ ok b
    → (a : A) × (r ≡ ok a) × ((g a s).0 ≡ ok b)
continue-eq-ok (ok a) g s b h = (a, refl, h)
continue-eq-ok (err e) g s b h = absurd (cc)

-- What holds of the final state: of the first one, if the result was an error.
pub continue-after :
    {S E A B : Type 0} (P : S → Type 0) (r : Result E A) (g : A → Exec S E B) (s : S)
    → P s
    → ((a : A) → r ≡ ok a → P (g a s).1)
    → P (continue r g s).1
continue-after P (ok a) g s h next = next a refl
continue-after P (err e) g s h next = h

pub continue-Leaves :
    {S E A B C : Type 0} (f : S → C) (r : Result E A) (g : A → Exec S E B)
    → ((a : A) → Leaves f (g a))
    → Leaves f (continue r g)
continue-Leaves f (ok a) g h s = h a s
continue-Leaves f (err e) g h s = refl

pub >>=-Leaves :
    {S E A B C : Type 0} (f : S → C) (m : Exec S E A) (g : A → Exec S E B)
    → Leaves f m
    → ((a : A) → Leaves f (g a))
    → Leaves f (m >>= g)
>>=-Leaves f m g first rest s = continue-Leaves f (m s).0 g rest (m s).1 ∙ first s

-- A sequence that returned a value: what holds of its final state, from the two runs.
pub >>=-run :
    {S E A B : Type 0} (m : Exec S E A) (g : A → Exec S E B) (s : S) (b : B) (P : S → Type 0)
    → ((m >>= g) s).0 ≡ ok b
    → ((a : A) → (m s).0 ≡ ok a → (g a (m s).1).0 ≡ ok b → P (g a (m s).1).1)
    → P ((m >>= g) s).1
>>=-run {S} {E} {A} {B} m g s b P h rest = go (m s) h rest
  where
    go :
        (r : Result E A × S)
        → (continue r.0 g r.1).0 ≡ ok b
        → ((a : A) → r.0 ≡ ok a → (g a r.1).0 ≡ ok b → P (g a r.1).1)
        → P (continue r.0 g r.1).1
    go (ok a, t) h rest = rest a refl h
    go (err e, t) h rest = absurd (cc)

-- A method that returns no value wherever the part `f` of the state is `x`.
abbrev pub Fails : {S E A C : Type 0} → (S → C) → C → Exec S E A → Type 0
Fails {S} {A} f x m = (s : S) → f s ≡ x → (a : A) → (m s).0 ≢ ok a

pub continue-Fails :
    {S E A B C : Type 0} (f : S → C) (x : C) (r : Result E A) (g : A → Exec S E B) (s : S)
    → f s ≡ x
    → ((a : A) → Fails f x (g a))
    → (b : B) → (continue r g s).0 ≢ ok b
continue-Fails f x (ok a) g s h rest b = rest a s h b
continue-Fails f x (err e) g s h rest b = λ p. absurd (cc)

pub >>=-Fails :
    {S E A B C : Type 0} (f : S → C) (x : C) (m : Exec S E A) (g : A → Exec S E B)
    → Leaves f m
    → ((a : A) → Fails f x (g a))
    → Fails f x (m >>= g)
>>=-Fails f x m g keep rest s h = continue-Fails f x (m s).0 g (m s).1 (keep s ∙ h) rest

pub >>=-first-Fails :
    {S E A B C : Type 0} (f : S → C) (x : C) (m : Exec S E A) (g : A → Exec S E B)
    → Fails f x m
    → Fails f x (m >>= g)
>>=-first-Fails f x m g fails s h b p =
    let (a, first, rest) = continue-eq-ok (m s).0 g (m s).1 b p in fails s h a first
