-- ===== src/Base/Raise.antt =====
-- A call that returns or raises: the value, or the exception.
use mathlib.Core.Path.{◌≡◌, refl}
use mathlib.Core.Bool.{Bool, true, false, not}

pub data Result (E A : Type 0) : Type 0 where
  ok : A → Result E A
  err : E → Result E A

infixl 5 ◌>>◌ ◌>>=◌
abbrev pub ◌>>=◌ : {E A B : Type 0} (call : Result E A) (next : A → Result E B) → Result E B
err raised >>= next = err raised
ok value >>= next = next value

abbrev pub ◌>>◌ : {E B : Type 0} (test : Result E (Unit {0})) (next : Result E B) → Result E B
test >> next = test >>= λ passed. next

-- `if c: raise e`
abbrev pub raise_if : {E : Type 0} → Bool → E → Result E (Unit {0})
raise_if true e = err e
raise_if false e = ok tt

pub >>=-eq-ok :
    {E A B : Type 0} (call : Result E A) (next : A → Result E B) {result : B}
    → (call >>= next) ≡ ok result
    → (value : A) × (call ≡ ok value) × (next value ≡ ok result)
>>=-eq-ok (err raised) next returned = cc
>>=-eq-ok (ok value) next returned = (value, refl, returned)

-- A test that did not raise was false, and the rest ran.
pub raise_if-eq-ok :
    {E B : Type 0} (c : Bool) (e : E) (k : Result E B) {b : B}
    → (raise_if c e >> k) ≡ ok b
    → (c ≡ false) × (k ≡ ok b)
raise_if-eq-ok true e k h = cc
raise_if-eq-ok false e k h = (refl, h)

pub ok-injective : {E A : Type 0} {a b : A} → ◌≡◌ {A = Result E A} (ok a) (ok b) → a ≡ b
ok-injective h = cc

pub err-injective : {E A : Type 0} {d e : E} → ◌≡◌ {A = Result E A} (err d) (err e) → d ≡ e
err-injective h = cc

pub not-eq-false : {b : Bool} → not b ≡ false → b ≡ true
not-eq-false {b = true} h = refl
not-eq-false {b = false} h = cc
