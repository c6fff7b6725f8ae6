-- ===== src/Base/BigEndian.antt =====
-- Unsigned integers in network byte order, as `struct` packs and unpacks them after "!".
use Prim.Native.Nat.{ℕ, zero, suc, ◌+◌, ◌*◌, ◌/◌, ◌%◌, ◌^◌, ◌<◌}
use mathlib.Core.Path.{◌≡◌, refl, ap, ◌∙◌}
use mathlib.Core.List.{List, [], ◌∷◌, ◌++◌, reverse, reverse_aux, reverse-reverse}
use native.Mathlib.Omega.{arith}
use native.Mathlib.Nat.{pow-suc}
use nanopc_t6_kvm.Base.Lists.{length, All, length-reverse, take, drop, take-append, drop-append}

abbrev pub IsByte : ℕ → Type 0
IsByte b = b < 256

-- `k` bytes of `n`, the lowest first, and the number that such bytes stand for.
le : ℕ → ℕ → List ℕ
le zero n = []
le (suc k) n = (n % 256) ∷ le k (n / 256)

from_le : List ℕ → ℕ
from_le [] = 0
from_le (b ∷ bs) = b + 256 * from_le bs

unfoldable pub be : ℕ → ℕ → List ℕ
unfolding le
be k n = reverse (le k n)

unfoldable pub from_be : List ℕ → ℕ
unfolding from_le
from_be bs = from_le (reverse bs)

length-le : (k n : ℕ) → length (le k n) ≡ k
unfolding le
length-le zero n = refl
length-le (suc k) n = ap suc (length-le k (n / 256))

from_le-le : (k n : ℕ) → n < 256 ^ k → from_le (le k n) ≡ n
unfolding le from_le
from_le-le zero n h = omega arith
from_le-le (suc k) n h =
    let smaller : n / 256 < 256 ^ k = omega (arith, pow-suc 256 k) in
    omega (arith, from_le-le k (n / 256) smaller)

le-from_le : (bs : List ℕ) → All IsByte bs → le (length bs) (from_le bs) ≡ bs
unfolding le from_le
le-from_le [] h = refl
le-from_le (b ∷ bs) h =
    let low : (b + 256 * from_le bs) % 256 ≡ b = omega arith in
    let high : (b + 256 * from_le bs) / 256 ≡ from_le bs = omega arith in
    rw (low, high, le-from_le bs h.1)

from_le-lt : (bs : List ℕ) → All IsByte bs → from_le bs < 256 ^ length bs
unfolding from_le
from_le-lt [] h = omega arith
from_le-lt (b ∷ bs) h = omega (arith, from_le-lt bs h.1, pow-suc 256 (length bs))

All-reverse_aux :
    (bs acc : List ℕ) → All IsByte bs → All IsByte acc → All IsByte (reverse_aux bs acc)
All-reverse_aux [] acc h k = k
All-reverse_aux (b ∷ bs) acc h k = All-reverse_aux bs (b ∷ acc) h.1 (h.0, k)

All-reverse : (bs : List ℕ) → All IsByte bs → All IsByte (reverse bs)
All-reverse bs h = All-reverse_aux bs [] h tt

pub length-be : (k n : ℕ) → length (be k n) ≡ k
unfolding be
length-be k n = length-reverse (le k n) ∙ length-le k n

pub from_be-be : (k n : ℕ) → n < 256 ^ k → from_be (be k n) ≡ n
unfolding be from_be
from_be-be k n h = rw reverse-reverse (from_le-le k n h)

pub be-from_be : (k : ℕ) (bs : List ℕ) → All IsByte bs → length bs ≡ k → be k (from_be bs) ≡ bs
unfolding be from_be
be-from_be k bs h e =
    let same : le (length (reverse bs)) (from_le (reverse bs)) ≡ reverse bs =
      le-from_le (reverse bs) (All-reverse bs h) in
    let width : length (reverse bs) ≡ k = length-reverse bs ∙ e in
    rw (rw width at same) (reverse-reverse bs)

pub from_be-lt : (k : ℕ) (bs : List ℕ) → All IsByte bs → length bs ≡ k → from_be bs < 256 ^ k
unfolding from_be
from_be-lt k bs h e =
    let width : length (reverse bs) ≡ k = length-reverse bs ∙ e in
    rw width at (from_le-lt (reverse bs) (All-reverse bs h))

pub take-be : (k n : ℕ) (rest : List ℕ) → take k (be k n ++ rest) ≡ be k n
take-be k n rest = take-append k (be k n) rest (length-be k n)

pub drop-be : (k n : ℕ) (rest : List ℕ) → drop k (be k n ++ rest) ≡ rest
drop-be k n rest = drop-append k (be k n) rest (length-be k n)
