-- ===== src/Base/Texts.antt =====
-- Texts as lists of code points, cut at a separator and joined.
use Prim.Native.Nat.{ℕ}
use mathlib.Core.Path.{◌≡◌, refl, ap}
use mathlib.Core.Logic.{inl, inr}
use mathlib.Core.Bool.{Bool, true, false, ◌&&◌, ◌||◌}
use mathlib.Core.Option.{Option, none, some}
use mathlib.Core.List.{List, [], ◌∷◌, ◌++◌, reverse}
use nanopc_t6_kvm.Base.Tests.{leb, ◌==◌, ==_refl, ==_iff, if◌then◌else◌, Bool-cases}
use nanopc_t6_kvm.Base.Lists.{All}

abbrev pub prepend : ℕ → List (List ℕ) → List (List ℕ)
prepend c [] = (c ∷ []) ∷ []
prepend c (p ∷ ps) = (c ∷ p) ∷ ps

-- `text.split(sep)`
abbrev pub split : ℕ → List ℕ → List (List ℕ)
split sep [] = [] ∷ []
split sep (c ∷ cs) = let rest = split sep cs in if c == sep then [] ∷ rest else prepend c rest

-- `sep.join(parts)`
abbrev pub join : ℕ → List (List ℕ) → List ℕ
join sep [] = []
join sep (p ∷ []) = p
join sep (p ∷ q ∷ ps) = p ++ (sep ∷ join sep (q ∷ ps))

-- The text behind a prefix.
abbrev pub strip_prefix : List ℕ → List ℕ → Option (List ℕ)
strip_prefix [] s = some s
strip_prefix (p ∷ ps) [] = none
strip_prefix (p ∷ ps) (c ∷ cs) = if p == c then strip_prefix ps cs else none

pub strip_prefix-append : (p s : List ℕ) → strip_prefix p (p ++ s) ≡ some s
strip_prefix-append [] s = refl
strip_prefix-append (c ∷ p) s = rw (==_refl c) (strip_prefix-append p s)

-- The cut of a text in front of and behind its first separator.
abbrev pub cut_behind : ℕ → Option (List ℕ × List ℕ) → Option (List ℕ × List ℕ)
cut_behind c none = none
cut_behind c (some (a, b)) = some (c ∷ a, b)

-- `text.split(sep,1)` as a pair; `none` where there is no separator, and the pair is a ValueError.
abbrev pub cut : ℕ → List ℕ → Option (List ℕ × List ℕ)
cut sep [] = none
cut sep (c ∷ cs) = let rest = cut_behind c (cut sep cs) in if c == sep then some ([], cs) else rest

abbrev pub Lacks : ℕ → List ℕ → Type 0
Lacks sep = All (λ c. (c == sep) ≡ false)

prepend-All :
    (sep c : ℕ) (ps : List (List ℕ))
    → (c == sep) ≡ false
    → All (Lacks sep) ps
    → All (Lacks sep) (prepend c ps)
prepend-All sep c [] h k = ((h, tt), tt)
prepend-All sep c (p ∷ ps) h (k, ks) = ((h, k), ks)

-- No part has a separator in it.
pub split-All : (sep : ℕ) (s : List ℕ) → All (Lacks sep) (split sep s)
split-All sep [] = (tt, tt)
split-All sep (c ∷ cs) = elim (Bool-cases (c == sep)) [
  | inl here_it_is ↦ rw here_it_is (tt, split-All sep cs)
  | inr other ↦ rw other (prepend-All sep c (split sep cs) other (split-All sep cs))
]

split_one : (sep : ℕ) (p : List ℕ) → Lacks sep p → split sep p ≡ p ∷ []
split_one sep [] h = refl
split_one sep (c ∷ p) (h, hs) = rw (h, split_one sep p hs) refl

split_first : (sep : ℕ) (p s : List ℕ) → Lacks sep p → split sep (p ++ (sep ∷ s)) ≡ p ∷ split sep s
split_first sep [] s h = rw (==_refl sep) refl
split_first sep (c ∷ p) s (h, hs) = rw (h, split_first sep p s hs) refl

-- Parts without a separator are found again.
pub split-join :
    (sep : ℕ) (p : List ℕ) (ps : List (List ℕ))
    → All (Lacks sep) (p ∷ ps)
    → split sep (join sep (p ∷ ps)) ≡ p ∷ ps
split-join sep p [] (h, hs) = split_one sep p h
split-join sep p (q ∷ ps) (h, hs) =
    rw (split_first sep p (join sep (q ∷ ps)) h, split-join sep q ps hs) refl

-- A text that is cut has a part.
pub split_part :
    (sep : ℕ) (s : List ℕ) → (p : List ℕ) × (ps : List (List ℕ)) × (split sep s ≡ p ∷ ps)
split_part sep [] = ([], [], refl)
split_part sep (c ∷ cs) = elim (Bool-cases (c == sep)) [
  | inl here_it_is ↦ ([], split sep cs, rw here_it_is refl)
  | inr other ↦ let (p, ps, e) = split_part sep cs in (c ∷ p, ps, rw (other, e) refl)
]

-- A text is cut at its first separator.
pub cut-append : (sep : ℕ) (a b : List ℕ) → Lacks sep a → cut sep (a ++ (sep ∷ b)) ≡ some (a, b)
cut-append sep [] b h = rw (==_refl sep) refl
cut-append sep (c ∷ a) b (h, hs) = rw (h, cut-append sep a b hs) refl

abbrev Cut : Type 0
Cut = Option (List ℕ × List ℕ)

abbrev IsCut : ℕ → List ℕ → List ℕ → List ℕ → Type 0
IsCut sep s a b = (s ≡ a ++ (sep ∷ b)) × Lacks sep a

cut_here :
    (sep c : ℕ) (cs : List ℕ) {a b : List ℕ}
    → (c == sep) ≡ true
    → ◌≡◌ {A = Cut} (some ([], cs)) (some (a, b))
    → IsCut sep (c ∷ cs) a b
cut_here sep c cs {a} {b} here_it_is e =
    let front : [] ≡ a = cc in
    let back : cs ≡ b = cc in rw (← front, ← back, (==_iff c sep).0 here_it_is) (refl, tt)

cut_later :
    (sep c : ℕ) (cs : List ℕ) {a b : List ℕ} (r : Cut)
    → (c == sep) ≡ false
    → ((x y : List ℕ) → r ≡ some (x, y) → IsCut sep cs x y)
    → cut_behind c r ≡ some (a, b)
    → IsCut sep (c ∷ cs) a b
cut_later sep c cs none other parts e = cc
cut_later sep c cs {a} {b} (some (x, y)) other parts e =
    let front : c ∷ x ≡ a = cc in
    let back : y ≡ b = cc in
    rw (← front, ← back) (ap (λ t. c ∷ t) (parts x y refl).0, (other, (parts x y refl).1))

pub cut_parts :
    (sep : ℕ) (s : List ℕ) {a b : List ℕ}
    → cut sep s ≡ some (a, b)
    → (s ≡ a ++ (sep ∷ b)) × Lacks sep a
cut_parts sep [] e = cc
cut_parts sep (c ∷ cs) e = elim (Bool-cases (c == sep)) [
  | inl here_it_is ↦ cut_here sep c cs here_it_is (rw here_it_is at e)
  | inr other ↦ cut_later sep c cs (cut sep cs) other (λ x y. cut_parts sep cs) (rw other at e)
]

-- The white space of ASCII.
abbrev pub is_space : ℕ → Bool
is_space c = leb 9 c && leb c 13 || (leb 28 c && leb c 32)

abbrev pub strip_left : List ℕ → List ℕ
strip_left [] = []
strip_left (c ∷ cs) = if is_space c then strip_left cs else c ∷ cs

-- `text.strip()`, on ASCII
abbrev pub strip : List ℕ → List ℕ
strip s = reverse (strip_left (reverse (strip_left s)))
