-- ===== src/Protocol/Nal.antt =====
-- `nal_types` of src/t6_kvm/protocol.py: the NAL unit types of an Annex-B access unit.
pub mod Stream
pub mod Bounds
use nanopc_t6_kvm.Base.{
  ℕ, zero, suc, ◌+◌, ◌-◌, ◌%◌, Bool, true, false, ◌&&◌, ◌||◌, not, List, [], ◌∷◌, Option, none,
  some, leb, ◌==◌, if◌then◌else◌, has_bit, length, get_elem?, contains, Result, ok, err, ◌>>=◌,
  ◌>>◌, raise_if,
}
use nanopc_t6_kvm.Protocol.{ProtocolError, not_annex_b, empty_nal, invalid_nal_header, index_error}

abbrev pub starts_with_one : List ℕ → Bool
starts_with_one [] = false
starts_with_one (b ∷ rest) = b == 1

-- The length of a match of the pattern `00 00 (00)? 01` at the head: with the optional byte first.
abbrev pub start_code : List ℕ → Option ℕ
start_code [] = none
start_code (a ∷ []) = none
start_code (a ∷ b ∷ []) = none
start_code (a ∷ b ∷ c ∷ rest) =
    if a == 0 && b == 0
    then (if c == 0 && starts_with_one rest then some 4 else if c == 1 then some 3 else none)
    else none

-- `re.finditer`: the leftmost matches that do not overlap, each as its start and its end. `skip` is
-- what is left of the last match.
unfoldable pub find_starts : ℕ → ℕ → List ℕ → List (ℕ × ℕ)
find_starts pos skip [] = []
find_starts pos (suc skip) (b ∷ rest) = find_starts (pos + 1) skip rest
find_starts pos zero (b ∷ rest) = elim (start_code (b ∷ rest)) [
  | none ↦ find_starts (pos + 1) 0 rest
  | some n ↦ (pos, pos + n) ∷ find_starts (pos + 1) (n - 1) rest
]

abbrev pub next_start : List (ℕ × ℕ) → ℕ → ℕ
next_start [] end = end
next_start (m ∷ ms) end = m.0

-- `types.add(x)`
abbrev pub add_type : List ℕ → ℕ → List ℕ
add_type types x = if contains x types then types else x ∷ types

-- The body of the loop after the bounds check: `byte & 0x80` and `byte & 31`.
abbrev pub header_type : Option ℕ → Result ProtocolError ℕ
header_type none = err index_error
header_type (some byte) = do
  raise_if (has_bit byte 7 || byte % 32 == 0) invalid_nal_header
  ok (byte % 32)

unfoldable pub unit_types : List ℕ → List (ℕ × ℕ) → List ℕ → Result ProtocolError (List ℕ)
unit_types bytes [] types = ok types
unit_types bytes (m ∷ ms) types = do
  raise_if (leb (next_start ms (length bytes)) m.1) empty_nal
  x ← header_type (get_elem? bytes m.1)
  unit_types bytes ms (add_type types x)

-- `not starts or starts[0].start() != 0`
abbrev pub begins_late : List (ℕ × ℕ) → Bool
begins_late [] = true
begins_late (m ∷ ms) = not (m.0 == 0)

unfoldable pub nal_types : List ℕ → Result ProtocolError (List ℕ)
unfolding find_starts unit_types
nal_types bytes = do
  let starts = find_starts 0 0 bytes
  raise_if (begins_late starts) not_annex_b
  unit_types bytes starts []
