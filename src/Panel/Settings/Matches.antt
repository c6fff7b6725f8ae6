-- ===== src/Panel/Settings/Matches.antt =====
-- The match of a line in src/t6_kvm/panel.py: what follows it, and the match of a line that was set.
use nanopc_t6_kvm.Base.{
  ℕ, ◌≡◌, inl, inr, refl, arith, false, List, [], ◌∷◌, ◌++◌, Option, none, some, ◌==◌, Bool-cases,
  All,
}
use nanopc_t6_kvm.Base.Decimal.{decimal, is_digit, IsDigit, decimal-All, decimal_part}
use nanopc_t6_kvm.Broker.{codes}
use nanopc_t6_kvm.Base.Texts.{strip_prefix}
use nanopc_t6_kvm.Panel.Settings.{
  space, skip_spaces, digits, some_digits, behind_sign, behind_key, match_line,
}

-- The text does not go on with a digit.
abbrev pub Ends : List ℕ → Type 0
Ends [] = Unit
Ends (c ∷ cs) = is_digit c ≡ false

digits-Ends : (s : List ℕ) → Ends (digits s).1
digits-Ends [] = tt
digits-Ends (c ∷ cs) = elim (Bool-cases (is_digit c)) [
  | inl more ↦ rw more (digits-Ends cs)
  | inr over ↦ rw over over
]

digits-append : (ds rest : List ℕ) → All IsDigit ds → Ends rest → digits (ds ++ rest) ≡ (ds, rest)
digits-append [] [] h k = refl
digits-append [] (c ∷ cs) h k = rw k refl
digits-append (d ∷ ds) rest (h, hs) k = rw (h, digits-append ds rest hs k) refl

some_digits-Ends :
    (r : List ℕ × List ℕ) {ds rest : List ℕ}
    → Ends r.1
    → some_digits r ≡ some (ds, rest)
    → Ends rest
some_digits-Ends ([], r) h e = cc
some_digits-Ends (d ∷ ds', r) {ds} {rest} h e = let q : r ≡ rest = cc in rw (← q) h

behind_sign-Ends : (s : List ℕ) {ds rest : List ℕ} → behind_sign s ≡ some (ds, rest) → Ends rest
behind_sign-Ends [] e = cc
behind_sign-Ends (c ∷ cs) e = elim (Bool-cases (c == b'=')) [
  | inl sign ↦
      some_digits-Ends (digits (skip_spaces cs)) (digits-Ends (skip_spaces cs)) (rw sign at e)
  | inr other ↦ let q = rw other at e in cc
]

behind_key-Ends :
    (s : Option (List ℕ)) {ds rest : List ℕ} → behind_key s ≡ some (ds, rest) → Ends rest
behind_key-Ends none e = cc
behind_key-Ends (some s) e = behind_sign-Ends (skip_spaces s) e

skip_spaces-digits : (d : ℕ) (ds : List ℕ) → IsDigit d → skip_spaces (d ∷ ds) ≡ d ∷ ds
skip_spaces-digits d ds h = ground arith

-- A line that was set has the new number.
pub match_line-set :
    (n : ℕ) (rest : List ℕ)
    → Ends rest
    → match_line (codes "bitrate_kbps = " ++ (decimal n ++ rest)) ≡ some (decimal n, rest)
unfolding match_line
match_line-set n rest h = go (decimal_part n) (decimal-All n)
  where
    go :
        (c : ℕ) × (cs : List ℕ) × (decimal n ≡ c ∷ cs)
        → All IsDigit (decimal n)
        → behind_sign (b'=' ∷ space ∷ (decimal n ++ rest)) ≡ some (decimal n, rest)
    go (c, cs, e) ds =
        let ds' : All IsDigit (c ∷ cs) = rw e at ds in
        rw (e, skip_spaces-digits c (cs ++ rest) ds'.0, digits-append (c ∷ cs) rest ds' h) refl

strip_prefix-All :
    (P : ℕ → Type 0) (p s : List ℕ) {rest : List ℕ}
    → All P s
    → strip_prefix p s ≡ some rest
    → All P rest
strip_prefix-All P [] s {rest} h e = let q : s ≡ rest = cc in rw (← q) h
strip_prefix-All P (x ∷ p) [] h e = cc
strip_prefix-All P (x ∷ p) (c ∷ cs) (h, hs) e = elim (Bool-cases (x == c)) [
  | inl same ↦ strip_prefix-All P p cs hs (rw same at e)
  | inr other ↦ let q = rw other at e in cc
]

skip_spaces-All : (P : ℕ → Type 0) (s : List ℕ) → All P s → All P (skip_spaces s)
skip_spaces-All P [] h = tt
skip_spaces-All P (c ∷ cs) (h, hs) = elim (Bool-cases (c == space)) [
  | inl blank ↦ rw blank (skip_spaces-All P cs hs)
  | inr other ↦ rw other (h, hs)
]

digits-All : (P : ℕ → Type 0) (s : List ℕ) → All P s → All P (digits s).1
digits-All P [] h = tt
digits-All P (c ∷ cs) (h, hs) = elim (Bool-cases (is_digit c)) [
  | inl more ↦ rw more (digits-All P cs hs)
  | inr over ↦ rw over (h, hs)
]

some_digits-All :
    (P : ℕ → Type 0) (r : List ℕ × List ℕ) {ds rest : List ℕ}
    → All P r.1
    → some_digits r ≡ some (ds, rest)
    → All P rest
some_digits-All P ([], r) h e = cc
some_digits-All P (d ∷ ds', r) {ds} {rest} h e = let q : r ≡ rest = cc in rw (← q) h

behind_sign-All :
    (P : ℕ → Type 0) (s : List ℕ) {ds rest : List ℕ}
    → All P s
    → behind_sign s ≡ some (ds, rest)
    → All P rest
behind_sign-All P [] h e = cc
behind_sign-All P (c ∷ cs) (h, hs) e = elim (Bool-cases (c == b'=')) [
  | inl sign ↦
      some_digits-All P (digits (skip_spaces cs))
        (digits-All P (skip_spaces cs) (skip_spaces-All P cs hs)) (rw sign at e)
  | inr other ↦ let q = rw other at e in cc
]

behind_key-All :
    (P : ℕ → Type 0) (p s : List ℕ) {ds rest : List ℕ} (found : Option (List ℕ))
    → strip_prefix p s ≡ found
    → All P s
    → behind_key found ≡ some (ds, rest)
    → All P rest
behind_key-All P p s none k h e = cc
behind_key-All P p s (some r) k h e =
    behind_sign-All P (skip_spaces r) (skip_spaces-All P r (strip_prefix-All P p s h k)) e

-- What follows a match is a part of the line.
pub match_line-All :
    (P : ℕ → Type 0) (line : List ℕ) {ds rest : List ℕ}
    → All P line
    → match_line line ≡ some (ds, rest)
    → All P rest
unfolding match_line
match_line-All P line h e =
    behind_key-All P (codes "bitrate_kbps") line (strip_prefix (codes "bitrate_kbps") line) refl h e

pub match_line-Ends :
    (line : List ℕ) {ds rest : List ℕ} → match_line line ≡ some (ds, rest) → Ends rest
unfolding match_line
match_line-Ends line e = behind_key-Ends (strip_prefix (codes "bitrate_kbps") line) e
