-- ===== src/Prelude/Outcomes.antt =====
-- What a call gives back: a value, or the exception that it raises.
use mathlib.Core.Path.{◌≡◌, refl}
use mathlib.Core.Logic.{◌⊎◌, inl, inr}
use mathlib.Core.Bool.{Bool, true, false}

pub data Result (E : Type 0) (A : Type 0) : Type 0 where
  ok : A → Result E A
  err : E → Result E A

infixl 5 ◌>>=◌
abbrev pub ◌>>=◌ : {E A B : Type 0} → Result E A → (A → Result E B) → Result E B
err x >>= next = err x
ok v >>= next = next v

infixl 5 ◌>>◌
abbrev pub ◌>>◌ : {E B : Type 0} → Result E (Unit {0}) → Result E B → Result E B
first >> rest = first >>= λ _. rest

-- `if bad: raise e`
abbrev pub reject_if : {E : Type 0} → Bool → E → Result E (Unit {0})
reject_if true e = err e
reject_if false e = ok tt

-- `except ...: raise e from None`
abbrev pub or_raise : {D E A : Type 0} → E → Result D A → Result E A
or_raise e (ok a) = ok a
or_raise e (err _) = err e

abbrev pub is_ok : {E A : Type 0} → Result E A → Bool
is_ok (ok _) = true
is_ok (err _) = false

pub Result-cases :
    {E A : Type 0} (r : Result E A) → ((a : A) × (r ≡ ok a)) ⊎ ((e : E) × (r ≡ err e))
Result-cases (ok a) = inl (a, refl)
Result-cases (err e) = inr (e, refl)

-- The parts of a chain that succeeds.
pub >>=-eq-ok :
    {E A B : Type 0} (r : Result E A) (next : A → Result E B) {w : B}
    → (r >>= next) ≡ ok w
    → (v : A) × (r ≡ ok v) × (next v ≡ ok w)
>>=-eq-ok (err x) next e = cc
>>=-eq-ok (ok v) next e = (v, refl, e)

pub >>-eq-ok :
    {E B : Type 0} (r : Result E (Unit {0})) (rest : Result E B) {w : B}
    → (r >> rest) ≡ ok w
    → (r ≡ ok tt) × (rest ≡ ok w)
>>-eq-ok (err x) rest e = cc
>>-eq-ok (ok tt) rest e = (refl, e)

pub reject_if-eq-ok : {E : Type 0} (b : Bool) (e : E) → reject_if b e ≡ ok tt → b ≡ false
reject_if-eq-ok true e h = cc
reject_if-eq-ok false e h = refl
