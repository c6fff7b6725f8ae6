-- ===== src/Value.antt =====
-- The values that Python's `json` and `tomllib` build, and what the sources ask of them.
use nanopc_t6_kvm.Base.{
  ℕ, Bool, true, false, not, List, [], ◌∷◌, Option, none, some, ◌==◌, if◌then◌else◌, list_eq,
}

-- `negsuc n` is -(n + 1).
pub data ℤ : Type 0 where
  pos : ℕ → ℤ
  negsuc : ℕ → ℤ

-- A text is the list of its code points. A float stands as a whole number of millionths;
-- `not_finite` is a nan or an infinity.
mutual
  pub data Fields : Type 0 where
    end : Fields
    field : List ℕ → Value → Fields → Fields

  pub data Items : Type 0 where
    no_items : Items
    item : Value → Items → Items

  pub data Value : Type 0 where
    obj : Fields → Value
    arr : Items → Value
    str : List ℕ → Value
    int float : ℤ → Value
    not_finite : Value
    boolean : Bool → Value
    null : Value

-- `isinstance(value, dict)`
abbrev pub is_object : Value → Bool
is_object (obj fs) = true
is_object _ = false

-- `d.get(key)`
abbrev pub get : List ℕ → Fields → Option Value
get key end = none
get key (field k v fs) = if list_eq key k then some v else get key fs

abbrev pub zero_ℤ : ℤ → Bool
zero_ℤ (pos n) = n == 0
zero_ℤ (negsuc n) = false

-- `bool(value)`
abbrev pub truthy : Value → Bool
truthy null = false
truthy (boolean b) = b
truthy (int n) = not (zero_ℤ n)
truthy (float x) = not (zero_ℤ x)
truthy not_finite = true
truthy (str []) = false
truthy (str (c ∷ cs)) = true
truthy (arr no_items) = false
truthy (arr (item x xs)) = true
truthy (obj end) = false
truthy (obj (field k v fs)) = true

-- Python's `json` module and `str`: a parameter of the definitions that use them.
pub record Json : Type 0 where
  -- `json.loads(bytes)`; `none` is a `ValueError` or a `UnicodeError`.
  pub loads : List ℕ → Option Value
  -- `json.dumps(value, separators=(",", ":")).encode()`
  pub dumps : Value → List ℕ
  -- `str(value)`
  pub to_text : Value → List ℕ
