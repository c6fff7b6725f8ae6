-- ===== src/Protocol/Nal/Bounds.antt =====
-- `nal_types` of src/t6_kvm/protocol.py on any bytes: it reads in bounds, and what it returns.
use nanopc_t6_kvm.Base.{
  ℕ, zero, suc, ◌+◌, ◌-◌, ◌%◌, ◌≤◌, ◌<◌, ◌≡◌, ◌≢◌, inl, inr, refl, arith, true, List, [], ◌∷◌,
  Option, none, some, leb, Bool-cases, Option-cases, length, get_elem?, All, contains, ok, err,
  >>=-eq-ok, raise_if-eq-ok,
}
use nanopc_t6_kvm.Protocol.{index_error}
use nanopc_t6_kvm.Protocol.Nal.{
  start_code, find_starts, next_start, add_type, unit_types, begins_late, nal_types, header_type,
}

abbrev StartsBy : ℕ → List (ℕ × ℕ) → Type 0
StartsBy end = All (λ m. m.0 ≤ end)

StartsBy-find_starts :
    (pos skip : ℕ) (bytes : List ℕ) (end : ℕ)
    → pos + length bytes ≤ end
    → StartsBy end (find_starts pos skip bytes)
unfolding find_starts
StartsBy-find_starts pos skip [] end h = tt
StartsBy-find_starts pos (suc skip) (b ∷ rest) end h =
    StartsBy-find_starts (pos + 1) skip rest end (omega arith)
StartsBy-find_starts pos zero (b ∷ rest) end h = elim (Option-cases (start_code (b ∷ rest))) [
  | inl e ↦ rw (e, find_starts) (StartsBy-find_starts (pos + 1) 0 rest end (omega arith))
  | inr (n, e) ↦
      rw (e, find_starts)
        (omega arith, StartsBy-find_starts (pos + 1) (n - 1) rest end (omega arith))
]

next_start-le : (ms : List (ℕ × ℕ)) (end : ℕ) → StartsBy end ms → next_start ms end ≤ end
next_start-le [] end h = omega arith
next_start-le (m ∷ ms) end h = h.0

get_elem?-in_range :
    (bytes : List ℕ) (i : ℕ) → i < length bytes → (b : ℕ) × (get_elem? bytes i ≡ some b)
get_elem?-in_range [] i h = absurd (omega arith)
get_elem?-in_range (b ∷ bytes) zero h = (b, refl)
get_elem?-in_range (b ∷ bytes) (suc i) h = get_elem?-in_range bytes i (omega arith)

unit_types-in_range :
    (bytes : List ℕ) (ms : List (ℕ × ℕ)) (types : List ℕ)
    → StartsBy (length bytes) ms
    → unit_types bytes ms types ≢ err index_error
unfolding unit_types
unit_types-in_range bytes [] types h = λ e. cc
unit_types-in_range bytes (m ∷ ms) types h =
    elim (Bool-cases (leb (next_start ms (length bytes)) m.1)) [
      | inl late ↦ rw late (λ e. cc)
      | inr room ↦
          let (b, at) =
            get_elem?-in_range bytes m.1 (ground (arith, next_start-le ms (length bytes) h.1)) in
          rw at (ground (arith, unit_types-in_range bytes ms (add_type types (b % 32)) h.1))
    ]

-- `data[match.end()]` never reads out of range: `nal_types` raises no `IndexError` on any bytes.
nal_types-in_range : (bytes : List ℕ) → nal_types bytes ≢ err index_error
unfolding nal_types
nal_types-in_range bytes = ground (
  arith,
  unit_types-in_range bytes (find_starts 0 0 bytes) []
      (StartsBy-find_starts 0 0 bytes (length bytes) (omega arith)),
)

abbrev pub IsNalType : ℕ → Type 0
IsNalType t = (1 ≤ t) × (t ≤ 31)

header_type-IsNalType : (o : Option ℕ) {t : ℕ} → header_type o ≡ ok t → IsNalType t
header_type-IsNalType none e = absurd (ground arith)
header_type-IsNalType (some b) e = ground arith

add_type-All :
    (types : List ℕ) (t : ℕ) → All IsNalType types → IsNalType t → All IsNalType (add_type types t)
add_type-All types t h k = elim (Bool-cases (contains t types)) [
  | inl old ↦ rw old h
  | inr new ↦ rw new (k, h)
]

unit_types-All :
    (bytes : List ℕ) (ms : List (ℕ × ℕ)) (types : List ℕ) {out : List ℕ}
    → All IsNalType types
    → unit_types bytes ms types ≡ ok out
    → All IsNalType out
unfolding unit_types
unit_types-All bytes [] types {out} h e = let same : types ≡ out = cc in rw (← same) h
unit_types-All bytes (m ∷ ms) types h e =
    let (room, e1) = raise_if-eq-ok (leb (next_start ms (length bytes)) m.1) _ _ e in
    let (t, at, e2) = >>=-eq-ok (header_type (get_elem? bytes m.1)) _ e1 in
    unit_types-All bytes ms (add_type types t)
      (add_type-All types t h (header_type-IsNalType (get_elem? bytes m.1) at)) e2

begins_late-find_starts :
    (pos skip : ℕ) (bytes : List ℕ) → 1 ≤ pos → begins_late (find_starts pos skip bytes) ≡ true
unfolding find_starts
begins_late-find_starts pos skip [] h = refl
begins_late-find_starts pos (suc skip) (b ∷ rest) h =
    begins_late-find_starts (pos + 1) skip rest (omega arith)
begins_late-find_starts pos zero (b ∷ rest) h = elim (Option-cases (start_code (b ∷ rest))) [
  | inl e ↦ rw (e, find_starts) (begins_late-find_starts (pos + 1) 0 rest (omega arith))
  | inr (n, e) ↦ rw (e, find_starts) (ground arith)
]

begins_late-none :
    (bytes : List ℕ) → start_code bytes ≡ none → begins_late (find_starts 0 0 bytes) ≡ true
unfolding find_starts
begins_late-none [] h = refl
begins_late-none (b ∷ rest) h = rw (h, find_starts) (begins_late-find_starts 1 0 rest (omega arith))

-- What `nal_types` returns on any bytes at all: they begin with a start code, and every type of the
-- set is between 1 and 31.
nal_types-All :
    (bytes : List ℕ) {types : List ℕ}
    → nal_types bytes ≡ ok types
    → (start_code bytes ≢ none) × All IsNalType types
unfolding nal_types
nal_types-All bytes e =
    let (early, rest) = raise_if-eq-ok (begins_late (find_starts 0 0 bytes)) _ _ e in
    (
      λ h. cc (begins_late-none bytes h, early),
      unit_types-All bytes (find_starts 0 0 bytes) [] tt rest,
    )
