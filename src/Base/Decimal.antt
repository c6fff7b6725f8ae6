-- ===== src/Base/Decimal.antt =====
-- Decimal numbers as texts: Python's `str` and `int` on numbers that are not negative.
use Prim.Native.Nat.{ℕ, zero, suc, ◌+◌, ◌-◌, ◌*◌, ◌/◌, ◌%◌, ◌<◌}
use mathlib.Core.Path.{◌≡◌, refl, ap, ◌∙◌}
use mathlib.Core.Logic.{inl, inr}
use mathlib.Core.Bool.{Bool, true, ◌&&◌}
use mathlib.Core.List.{List, [], ◌∷◌, ◌++◌}
use native.Mathlib.Omega.{arith}
use nanopc_t6_kvm.Base.Tests.{ltb, leb, if◌then◌else◌, Bool-cases}
use nanopc_t6_kvm.Base.Lists.{All, All-append}

-- The digits of `n`, the last one behind those of `n / 10`.
unfoldable pub decimal_on : ℕ → ℕ → List ℕ
decimal_on zero n = []
decimal_on (suc fuel) n =
    let front = decimal_on fuel (n / 10) ++ ((b'0' + n % 10) ∷ []) in
    if ltb n 10 then (b'0' + n) ∷ [] else front

unfoldable pub decimal : ℕ → List ℕ
unfolding decimal_on
decimal n = decimal_on (suc n) n

-- The number that digits stand for, behind the number of those read before.
unfoldable pub number : ℕ → List ℕ → ℕ
number before [] = before
number before (c ∷ cs) = number (before * 10 + (c - b'0')) cs

abbrev pub is_digit : ℕ → Bool
is_digit c = leb b'0' c && leb c b'9'

number-append :
    (before : ℕ) (xs ys : List ℕ) → number before (xs ++ ys) ≡ number (number before xs) ys
unfolding number
number-append before [] ys = refl
number-append before (x ∷ xs) ys = number-append (before * 10 + (x - b'0')) xs ys

number-decimal_on : (fuel n : ℕ) → n < fuel → number 0 (decimal_on fuel n) ≡ n
unfolding decimal_on number
number-decimal_on zero n h = absurd (omega arith)
number-decimal_on (suc fuel) n h = elim (Bool-cases (ltb n 10)) [
  | inl small ↦ rw small (omega arith)
  | inr large ↦ rw large (
      number-append 0 (decimal_on fuel (n / 10)) ((b'0' + n % 10) ∷ [])
      ∙ ap (λ m. m * 10 + (b'0' + n % 10 - b'0')) (number-decimal_on fuel (n / 10) (ground arith))
      ∙ omega arith)
]

pub number-decimal : (n : ℕ) → number 0 (decimal n) ≡ n
unfolding decimal
number-decimal n = number-decimal_on (suc n) n (omega arith)

abbrev pub IsDigit : ℕ → Type 0
IsDigit c = is_digit c ≡ true

decimal_on-All : (fuel n : ℕ) → All IsDigit (decimal_on fuel n)
unfolding decimal_on
decimal_on-All zero n = tt
decimal_on-All (suc fuel) n = elim (Bool-cases (ltb n 10)) [
  | inl small ↦ rw small (ground arith, tt)
  | inr large ↦ rw large (
      All-append IsDigit (decimal_on fuel (n / 10)) ((b'0' + n % 10) ∷ [])
        (decimal_on-All fuel (n / 10)) (ground arith, tt))
]

pub decimal-All : (n : ℕ) → All IsDigit (decimal n)
unfolding decimal
decimal-All n = decimal_on-All (suc n) n

decimal_on_part : (fuel n : ℕ) → n < fuel → (c : ℕ) × (cs : List ℕ) × (decimal_on fuel n ≡ c ∷ cs)
unfolding decimal_on
decimal_on_part zero n h = absurd (omega arith)
decimal_on_part (suc fuel) n h = elim (Bool-cases (ltb n 10)) [
  | inl small ↦ (b'0' + n, [], rw small refl)
  | inr large ↦
      let (c, cs, e) = decimal_on_part fuel (n / 10) (ground arith) in
      (c, cs ++ ((b'0' + n % 10) ∷ []), rw (large, e) refl)
]

-- A number has a digit.
pub decimal_part : (n : ℕ) → (c : ℕ) × (cs : List ℕ) × (decimal n ≡ c ∷ cs)
unfolding decimal
decimal_part n = decimal_on_part (suc n) n (omega arith)
