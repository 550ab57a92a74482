-- ===== src/Common/Results.antt =====
-- Code that returns a value or throws an error of a class `E`.
use mathlib.Core.Path.{◌≡◌, refl}
use mathlib.Core.Logic.{◌⊎◌, inl, inr}
use mathlib.Core.Bool.{Bool, true, false}

pub data Result {ℓ} (E A : Type ℓ) : Type ℓ where
  ok : A → Result E A
  err : E → Result E A

infixl 5 ◌>>=◌ ◌>>◌
abbrev pub ◌>>=◌ : {E A B : Type 0} → Result E A → (A → Result E B) → Result E B
ok a >>= f = f a
err e >>= f = err e

abbrev pub ◌>>◌ : {E B : Type 0} → Result E (Unit {0}) → Result E B → Result E B
ok u >> k = k
err e >> k = err e

-- `if (bad) throw e`
abbrev pub refuse_if : {E : Type 0} → Bool → E → Result E (Unit {0})
refuse_if true e = err e
refuse_if false e = ok tt

pub Result-cases :
    {E A : Type 0} (r : Result E A) → ((a : A) × (r ≡ ok a)) ⊎ ((e : E) × (r ≡ err e))
Result-cases (ok a) = inl (a, refl)
Result-cases (err e) = inr (e, refl)

-- What a call that returns has passed.
pub refuse_if-ok :
    {E B : Type 0} (b : Bool) (e : E) (k : Result E B) {a : B}
    → (refuse_if b e >> k) ≡ ok a
    → (b ≡ false) × (k ≡ ok a)
refuse_if-ok true e k h = cc
refuse_if-ok false e k h = (refl, h)

pub refuse_if-last :
    {E : Type 0} (b : Bool) (e : E) {u : Unit {0}} → refuse_if b e ≡ ok u → b ≡ false
refuse_if-last true e h = cc
refuse_if-last false e h = refl

-- What the first call of a chain gave, when the whole returns.
pub >>=_parts :
    {E A B : Type 0} {last : B} (first : Result E A) (next : A → Result E B)
    (whole : (first >>= next) ≡ ok last)
    → (x : A) × (first ≡ ok x) × (next x ≡ ok last)
>>=_parts (err e) next whole = cc whole
>>=_parts (ok x) next whole = (x, refl, whole)

-- Both halves of a check with what follows it.
pub >>_parts :
    {E B : Type 0} {last : B} (check : Result E (Unit {0})) (rest : Result E B)
    (whole : (check >> rest) ≡ ok last)
    → (check ≡ ok tt) × (rest ≡ ok last)
>>_parts (err e) rest whole = cc whole
>>_parts (ok u) rest whole = (refl, whole)
