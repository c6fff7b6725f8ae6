-- ===== src/Config/Paths.antt =====
-- What `Config.validate` of src/t6_kvm/config.py asks of a path: `pathlib.Path` on Linux, and the size of
-- a text in UTF-8.
use nanopc_t6_kvm.Base.{
  ℕ, ◌+◌, Bool, false, ◌&&◌, ◌||◌, not, List, [], ◌∷◌, ltb, ◌==◌, if◌then◌else◌, list_eq,
}
use nanopc_t6_kvm.Base.Texts.{split}

abbrev slash : ℕ
slash = 47

abbrev dot : ℕ
dot = 46

-- The components between the slashes.
abbrev pub components : List ℕ → List (List ℕ)
components s = split slash s

abbrev has_parent : List (List ℕ) → Bool
has_parent [] = false
has_parent (p ∷ ps) = list_eq p (dot ∷ dot ∷ []) || has_parent ps

abbrev is_absolute : List ℕ → Bool
is_absolute [] = false
is_absolute (c ∷ cs) = c == slash

-- `p.is_absolute() and ".." not in p.parts`
unfoldable pub is_path : List ℕ → Bool
is_path s = is_absolute s && not (has_parent (components s))

abbrev utf8_length : ℕ → ℕ
utf8_length c = if ltb c 128 then 1 else if ltb c 2048 then 2 else if ltb c 65536 then 3 else 4

-- `len(text.encode())`
abbrev pub utf8_size : List ℕ → ℕ
utf8_size [] = 0
utf8_size (c ∷ cs) = utf8_length c + utf8_size cs
