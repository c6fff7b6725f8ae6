-- ===== src/Panel/Backups.antt =====
-- The backups that `update` of src/t6_kvm/panel.py makes: a directory whose own snapshots are rotated.
pub mod Rotation
pub mod Spared
use nanopc_t6_kvm.Base.{
  ℕ, ◌-◌, Bool, true, false, ◌&&◌, ◌||◌, not, List, [], ◌∷◌, ◌++◌, Option, none, some, ltb, ◌==◌,
  if◌then◌else◌, list_eq, length, take,
}
use nanopc_t6_kvm.Base.Decimal.{decimal}
use nanopc_t6_kvm.Base.Texts.{strip_prefix}
use nanopc_t6_kvm.Broker.{codes}
use nanopc_t6_kvm.Endpoint.{is_some}

-- An entry of the backups' directory: its name, the text of a file `owner` in it, and what was copied.
pub record Entry (S : Type 0) : Type 0 where
  pub name : List ℕ
  pub owner : Option (List ℕ)
  pub saved : Option S

abbrev pub owner_text : List ℕ
owner_text = codes "t6-panel-v1"

abbrev pub is_owner : Option (List ℕ) → Bool
is_owner none = false
is_owner (some t) = list_eq t owner_text

-- `member names name`: the name is among them.
abbrev pub member : List (List ℕ) → List ℕ → Bool
member [] name = false
member (n ∷ ns) name = list_eq n name || member ns name

-- Python's order of texts.
abbrev pub text_leb : List ℕ → List ℕ → Bool
text_leb [] ys = true
text_leb (x ∷ xs) [] = false
text_leb (x ∷ xs) (y ∷ ys) = ltb x y || (x == y && text_leb xs ys)

abbrev pub insert : List ℕ → List (List ℕ) → List (List ℕ)
insert n [] = n ∷ []
insert n (m ∷ ms) = let rest = insert n ms in if text_leb n m then n ∷ m ∷ ms else m ∷ rest

-- `sorted(names)`
abbrev pub sorted : List (List ℕ) → List (List ℕ)
sorted [] = []
sorted (n ∷ ns) = insert n (sorted ns)

module _ {S : Type 0} where
  -- The name is matched by `t6-panel-*`, and the file `owner` has the panel's text.
  abbrev pub is_own : Entry S → Bool
  is_own e = is_some (strip_prefix (codes "t6-panel-") e.name) && is_owner e.owner

  abbrev pub names : List (Entry S) → List (List ℕ)
  names [] = []
  names (e ∷ es) = e.name ∷ names es

  abbrev pub select : (Entry S → Bool) → List (Entry S) → List (Entry S)
  select test [] = []
  select test (e ∷ es) = let rest = select test es in if test e then e ∷ rest else rest

  -- `shutil.rmtree` of each of the names.
  abbrev pub remove : List (List ℕ) → List (Entry S) → List (Entry S)
  remove ns = select (λ e. not (member ns e.name))

  -- `backups[:-2]` of the sorted snapshots.
  abbrev pub outdated : List (Entry S) → List (List ℕ)
  outdated es = let backups = sorted (names (select is_own es)) in take (length backups - 2) backups

  unfoldable pub rotate : List (Entry S) → List (Entry S)
  rotate es = remove (outdated es) es

abbrev pub snapshot_name : ℕ → List ℕ
snapshot_name now = codes "t6-panel-" ++ decimal now

abbrev pub snapshot : {S : Type 0} → ℕ → S → Entry S
snapshot now s = record { name = snapshot_name now; owner = some owner_text; saved = some s }

-- `mkdir` of the snapshot, the copies, and the rotation; `none` is a `FileExistsError`.
unfoldable pub back_up : {S : Type 0} → ℕ → S → List (Entry S) → Option (List (Entry S))
unfolding rotate
back_up now s es =
    if member (names es) (snapshot_name now)
    then none
    else some (rotate (es ++ (snapshot now s ∷ [])))
