-- ===== src/Panel/Settings.antt =====
-- The settings' texts of src/t6_kvm/panel.py: the regular expressions that find and replace the bitrate.
pub mod Matches
pub mod ReadBack
use nanopc_t6_kvm.Base.{
  ℕ, ◌-◌, Bool, false, List, [], ◌∷◌, ◌++◌, map, Option, none, some, ltb, ◌==◌, if◌then◌else◌,
}
use nanopc_t6_kvm.Base.Decimal.{decimal, number, is_digit}
use nanopc_t6_kvm.Base.Texts.{split, join, strip_prefix}
use nanopc_t6_kvm.Broker.{codes}

abbrev pub newline : ℕ
newline = 10

abbrev pub space : ℕ
space = 32

-- `[ ]*`
abbrev pub skip_spaces : List ℕ → List ℕ
skip_spaces [] = []
skip_spaces (c ∷ cs) = if c == space then skip_spaces cs else c ∷ cs

-- `[0-9]*`: the digits and what follows them.
abbrev pub digits : List ℕ → List ℕ × List ℕ
digits [] = ([], [])
digits (c ∷ cs) = let r = digits cs in if is_digit c then (c ∷ r.0, r.1) else ([], c ∷ cs)

-- `[0-9]+`
abbrev pub some_digits : List ℕ × List ℕ → Option (List ℕ × List ℕ)
some_digits ([], rest) = none
some_digits (d ∷ ds, rest) = some (d ∷ ds, rest)

abbrev pub behind_sign : List ℕ → Option (List ℕ × List ℕ)
behind_sign [] = none
behind_sign (c ∷ cs) = if c == b'=' then some_digits (digits (skip_spaces cs)) else none

abbrev pub behind_key : Option (List ℕ) → Option (List ℕ × List ℕ)
behind_key none = none
behind_key (some s) = behind_sign (skip_spaces s)

-- `^bitrate_kbps[ ]*=[ ]*([0-9]+)` on one line: the digits and what follows them.
unfoldable pub match_line : List ℕ → Option (List ℕ × List ℕ)
match_line line = behind_key (strip_prefix (codes "bitrate_kbps") line)

abbrev pub set_matched : ℕ → List ℕ → Option (List ℕ × List ℕ) → List ℕ
set_matched n line none = line
set_matched n line (some (ds, rest)) = codes "bitrate_kbps = " ++ (decimal n ++ rest)

abbrev pub set_line : ℕ → List ℕ → List ℕ
set_line n line = set_matched n line (match_line line)

-- `re.sub`, which replaces the match of every line.
unfoldable pub set_bitrate : ℕ → List ℕ → List ℕ
set_bitrate n toml = join newline (map (set_line n) (split newline toml))

-- `re.search`: the first line that matches.
abbrev pub first_found : Option (List ℕ × List ℕ) → Option (List ℕ) → Option (List ℕ)
first_found none later = later
first_found (some (ds, _)) later = some ds

abbrev pub first_match : List (List ℕ) → Option (List ℕ)
first_match [] = none
first_match (line ∷ rest) = first_found (match_line line) (first_match rest)

abbrev pub read_number : Option (List ℕ) → Option ℕ
read_number none = none
read_number (some ds) = some (number 0 ds)

-- `int(re.search(...)[1])`, as `status` reads it; `none` is a TypeError.
unfoldable pub read_bitrate : List ℕ → Option ℕ
read_bitrate toml = read_number (first_match (split newline toml))

abbrev pub yaml_key : List ℕ
yaml_key = codes "h264_bitrate: {default: "

-- How `re.sub` stands in main.yaml: at any place, inside a match's head, or inside its digits.
pub data Scan : Type 0 where
  anywhere in_digits : Scan
  in_head : ℕ → Scan

abbrev pub starts_match : Option (List ℕ) → Bool
starts_match none = false
starts_match (some []) = false
starts_match (some (c ∷ cs)) = is_digit c

-- `(h264_bitrate: [{]default: )[0-9]+`, replaced by the head and the new number.
unfoldable pub set_yaml : ℕ → Scan → List ℕ → List ℕ
set_yaml n s [] = []
set_yaml n (in_head left) (c ∷ cs) =
    let more = set_yaml n (in_head (left - 1)) cs in
    let last = decimal n ++ set_yaml n in_digits cs in c ∷ (if ltb 1 left then more else last)
set_yaml n in_digits (c ∷ cs) =
    let head = set_yaml n (in_head 23) cs in
    let plain = set_yaml n anywhere cs in
    let skipped = set_yaml n in_digits cs in
    if is_digit c
    then skipped
    else if starts_match (strip_prefix yaml_key (c ∷ cs))
    then c ∷ head
    else c ∷ plain
set_yaml n anywhere (c ∷ cs) =
    let head = set_yaml n (in_head 23) cs in
    let plain = set_yaml n anywhere cs in
    if starts_match (strip_prefix yaml_key (c ∷ cs)) then c ∷ head else c ∷ plain
