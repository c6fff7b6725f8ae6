-- ===== src/Admin.antt =====
-- tools/admin.py: the installation of releases, its backups and its removal. This is the file system that
-- the tool works on.
pub mod Call
pub mod Files
pub mod Checks
pub mod Backup
pub mod Release
pub mod Uninstall
pub mod Stage
pub mod Install
pub mod Main
use nanopc_t6_kvm.Base.{
  ℕ, zero, suc, Bool, true, false, ◌&&◌, List, [], ◌∷◌, ◌++◌, Option, none, some, if◌then◌else◌,
  drop, list_eq,
}
use mathlib.Core.List.{reverse}

-- A path from the root on, as its names.
abbrev pub Location : Type 0
Location = List (List ℕ)

abbrev pub same : Location → Location → Bool
same [] [] = true
same (n ∷ ns) (m ∷ ms) = list_eq n m && same ns ms
same ns ms = false

-- What stands at a location. A link has whether its target begins at the root; `special` is a device, a
-- socket or a pipe.
pub data Node : Type 0 where
  dir : (uid mode : ℕ) → Node
  file : (content : List ℕ) (uid gid mode : ℕ) → Node
  link : Bool → Location → Node
  special : Node

abbrev pub Nodes : Type 0
Nodes = List (Location × Node)

abbrev pub node_at : Location → Nodes → Option Node
node_at l [] = none
node_at l ((k, n) ∷ ns) = if same k l then some n else node_at l ns

abbrev pub delete : Location → Nodes → Nodes
delete l [] = []
delete l ((k, n) ∷ ns) = let rest = delete l ns in if same k l then rest else (k, n) ∷ rest

abbrev pub put : Location → Node → Nodes → Nodes
put l n ns = (l, n) ∷ delete l ns

-- The location itself or one below it.
abbrev pub within : Location → Location → Bool
within [] l = true
within (n ∷ ns) [] = false
within (n ∷ ns) (m ∷ ms) = list_eq n m && within ns ms

abbrev pub is_link : Option Node → Bool
is_link (some (link absolute target)) = true
is_link n = false

-- A location with a name of a link's target behind it.
abbrev pub step_to : Location → List ℕ → Location
step_to done name =
    if list_eq name (b'.' ∷ b'.' ∷ []) then reverse (drop 1 (reverse done)) else done ++ (name ∷ [])

-- The way on from a node: a link is replaced by its target, and `restart` goes on.
abbrev pub onward :
    (restart : Location → Location → Option Location) (done rest : Location)
    → Option Location
    → Option Node
    → Option Location
onward restart done rest on (some (link true target)) = restart [] (target ++ rest)
onward restart done rest on (some (link false target)) = restart done (target ++ rest)
onward restart done rest on n = on

-- The way along the names.
abbrev pub walk :
    (restart : Location → Location → Option Location)
    → Nodes
    → Location
    → Location
    → Option Location
walk restart ns done [] = some done
walk restart ns done (name ∷ rest) =
    let on = walk restart ns (step_to done name) rest in
    onward restart done rest on (node_at (step_to done name) ns)

-- `path.resolve()`; `none` is the error of too many links, more than the given number.
unfoldable pub resolve_on : ℕ → Nodes → Location → Location → Option Location
resolve_on zero ns = walk (λ done rest. none) ns
resolve_on (suc n) ns = walk (resolve_on n ns) ns

unfoldable pub resolve : Nodes → Location → Option Location
resolve ns l = resolve_on 40 ns [] l

abbrev pub at_resolved : Nodes → Option Location → Option Node
at_resolved ns none = none
at_resolved ns (some l) = node_at l ns

-- `path.stat()`, which follows links.
unfoldable pub stat : Nodes → Location → Option Node
unfolding resolve
stat ns l = at_resolved ns (resolve ns l)
