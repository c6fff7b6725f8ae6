-- ===== src/Admin/Release.antt =====
-- `switch_release` of tools/admin.py, and the operation `rollback`.
pub mod Moves
pub mod Safe
pub mod Refines
use nanopc_t6_kvm.Base.{
  ℕ, Bool, true, false, not, List, [], ◌∷◌, ◌++◌, Option, none, some, if◌then◌else◌, list_eq,
  Result, ok, err,
}
use nanopc_t6_kvm.Base.Decimal.{decimal}
use nanopc_t6_kvm.Broker.{codes}
use nanopc_t6_kvm.Endpoint.{is_some}
use nanopc_t6_kvm.Value.{Value, Fields, end, field, get, obj, str, null, truthy}
use nanopc_t6_kvm.Admin.{
  Location, same, Node, dir, file, link, special, Nodes, node_at, resolve, stat,
}
use nanopc_t6_kvm.Admin.Call.{
  World, Host, AdminError, foreign, pending, no_previous, no_object, Do, pure, raise, look, from,
  raise_if, ◌>>=◌, ◌>>◌, set, rename,
}
use nanopc_t6_kvm.Admin.Checks.{
  base, project, below, parent, atomic, read_manifest, install_json, releases, resolve_release,
  units, ensure_stopped,
}
use nanopc_t6_kvm.Admin.Backup.{backup_file}

abbrev pub current : Location
current = below base (codes "current")

abbrev pub is_release_link : Option Location → Bool
is_release_link none = false
is_release_link (some l) = same (parent l) releases

-- `current` is there, but no link to a release.
abbrev pub is_foreign : Nodes → Bool
is_foreign ns = elim (node_at current ns) [
  | none ↦ false
  | some (link absolute target) ↦ not (is_release_link (resolve ns current))
  | some n ↦ true
]

-- `manifest[key]=value`
abbrev pub set_field : List ℕ → Value → Fields → Fields
set_field key v end = field key v end
set_field key v (field k u fs) =
    let rest = set_field key v fs in if list_eq key k then field k v fs else field k u rest

abbrev pub or_null : Option Value → Value
or_null none = null
or_null (some v) = v

-- `manifest.get(key)`, `None` where it is not there.
abbrev pub get_or_null : List ℕ → Fields → Value
get_or_null key m = or_null (get key m)

abbrev pub updated : List ℕ → Fields → Fields
updated name m =
    set_field (codes "previous") (get_or_null (codes "current") m)
      (set_field (codes "current") (str name) (set_field (codes "project") (str project) m))

abbrev pub release_link : List ℕ → Node
release_link name = link false (codes "releases" ∷ name ∷ [])

-- `a.release or m.get("previous")`
abbrev pub chosen : Value → Result AdminError (List ℕ)
chosen (str (c ∷ cs)) = ok (c ∷ cs)
chosen v = err (if truthy v then no_object else no_previous)

abbrev pub named : Option (List ℕ) → Fields → Result AdminError (List ℕ)
named (some (c ∷ cs)) m = ok (c ∷ cs)
named release m = chosen (get_or_null (codes "previous") m)

module _ (h : Host) where
  abbrev pub pending_link : Location
  pending_link = below base (codes ".current-" ++ decimal h.pid)

  -- The new link takes the old one's place in one call.
  unfoldable pub set_current : List ℕ → Do (Unit {0})
  set_current name = do
    there ← look (λ w. is_some (node_at pending_link w.nodes))
    raise_if there pending
    set h pending_link (release_link name)
    rename h pending_link current (release_link name)

  unfoldable pub save_manifest : Do (Unit {0})
  save_manifest = do
    there ← look (λ w. is_some (stat w.nodes install_json))
    if there then backup_file h install_json >> pure tt else pure tt

  unfoldable pub switch_release : List ℕ → Fields → Do (Unit {0})
  switch_release name m = do
    resolve_release h name
    other ← look (λ w. is_foreign w.nodes)
    raise_if other foreign
    save_manifest
    set_current name
    atomic h install_json (h.print (obj (updated name m))) 0o600 0 0

  unfoldable pub rollback : Option (List ℕ) → (apply : Bool) → Do (Unit {0})
  rollback release apply = do
    m ← read_manifest h
    name ← from (named release m)
    resolve_release h name
    if apply then ensure_stopped h units >> switch_release name m else pure tt
