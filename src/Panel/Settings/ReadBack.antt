-- ===== src/Panel/Settings/ReadBack.antt =====
-- The bitrate that src/t6_kvm/panel.py has written is the one that it reads.
use nanopc_t6_kvm.Base.{
  ℕ, ◌≡◌, refl, arith, false, List, [], ◌∷◌, ◌++◌, map, Option, none, some, ◌==◌, All, All-append,
}
use nanopc_t6_kvm.Base.Decimal.{decimal, number-decimal, IsDigit, decimal-All}
use nanopc_t6_kvm.Broker.{codes}
use nanopc_t6_kvm.Base.Texts.{Lacks, split, split-All, split-join, split_part}
use nanopc_t6_kvm.Panel.Settings.{
  newline, match_line, set_matched, set_line, set_bitrate, first_found, first_match, read_number,
  read_bitrate,
}
use nanopc_t6_kvm.Panel.Settings.Matches.{match_line-set, match_line-All, match_line-Ends}

digits-Lacks : (ds : List ℕ) → All IsDigit ds → Lacks newline ds
digits-Lacks [] h = tt
digits-Lacks (d ∷ ds) (h, hs) = (ground arith, digits-Lacks ds hs)

key-Lacks : Lacks newline (codes "bitrate_kbps = ")
key-Lacks = (
  refl,
  (
    refl,
    (
      refl,
      (
        refl,
        (refl, (refl, (refl, (refl, (refl, (refl, (refl, (refl, (refl, (refl, (refl, tt))))))))))),
      ),
    ),
  ),
)

set_matched-Lacks :
    (n : ℕ) (line : List ℕ) (found : Option (List ℕ × List ℕ))
    → match_line line ≡ found
    → Lacks newline line
    → Lacks newline (set_matched n line found)
set_matched-Lacks n line none e h = h
set_matched-Lacks n line (some (ds, rest)) e h =
    All-append (λ c. (c == newline) ≡ false) (codes "bitrate_kbps = ") (decimal n ++ rest) key-Lacks
      (All-append (λ c. (c == newline) ≡ false) (decimal n) rest
        (digits-Lacks (decimal n) (decimal-All n))
        (match_line-All (λ c. (c == newline) ≡ false) line h e))

set_line-All :
    (n : ℕ) (lines : List (List ℕ))
    → All (Lacks newline) lines
    → All (Lacks newline) (map (set_line n) lines)
set_line-All n [] h = tt
set_line-All n (line ∷ rest) (h, hs) =
    (set_matched-Lacks n line (match_line line) refl h, set_line-All n rest hs)

-- What is found after the number was set.
abbrev renewed : ℕ → Option (List ℕ) → Option (List ℕ)
renewed n none = none
renewed n (some ds) = some (decimal n)

first_found-set :
    (n : ℕ) (line : List ℕ) (found : Option (List ℕ × List ℕ)) (r : Option (List ℕ))
    → match_line line ≡ found
    → first_found (match_line (set_matched n line found)) (renewed n r)
      ≡ renewed n (first_found found r)
first_found-set n line none r e = rw e refl
first_found-set n line (some (ds, rest)) r e =
    rw (match_line-set n rest (match_line-Ends line e)) refl

first_match-set :
    (n : ℕ) (lines : List (List ℕ))
    → first_match (map (set_line n) lines) ≡ renewed n (first_match lines)
first_match-set n [] = refl
first_match-set n (line ∷ rest) =
    rw (first_match-set n rest) (first_found-set n line (match_line line) (first_match rest) refl)

-- The lines of a text that was set are the lines that were set.
split-set_bitrate :
    (n : ℕ) (toml : List ℕ)
    → (p : List ℕ) × (ps : List (List ℕ)) × (split newline toml ≡ p ∷ ps)
    → split newline (set_bitrate n toml) ≡ map (set_line n) (split newline toml)
unfolding set_bitrate
split-set_bitrate n toml (p, ps, e) = rw e (
    split-join newline (set_line n p) (map (set_line n) ps)
      (set_line-All n (p ∷ ps) (rw e at (split-All newline toml))))

-- The setting is read back as it was set.
pub read_bitrate-set_bitrate :
    (n : ℕ) (toml : List ℕ) {m : ℕ}
    → read_bitrate toml ≡ some m
    → read_bitrate (set_bitrate n toml) ≡ some n
unfolding read_bitrate
read_bitrate-set_bitrate n toml e =
    rw (split-set_bitrate n toml (split_part newline toml), first_match-set n (split newline toml))
      (go (first_match (split newline toml)) e)
  where
    go :
        (found : Option (List ℕ)) {m : ℕ}
        → read_number found ≡ some m
        → read_number (renewed n found) ≡ some n
    go none e = cc
    go (some ds) e = rw (number-decimal n) refl
