-- ===== src/Admin/Uninstall.antt =====
-- `unit_conflicts` of tools/admin.py, and the operation `uninstall`.
pub mod Checked
pub mod Safe
pub mod Own
use nanopc_t6_kvm.Base.{
  ℕ, Bool, ◌&&◌, not, List, [], ◌∷◌, Option, none, some, if◌then◌else◌, Result, ok, err,
}
use nanopc_t6_kvm.Broker.{codes}
use nanopc_t6_kvm.Endpoint.{is_some}
use nanopc_t6_kvm.Gadget.{has_text}
use nanopc_t6_kvm.Value.{Value, Fields, get, obj}
use nanopc_t6_kvm.Admin.{Location, Nodes, node_at, is_link, resolve, stat}
use nanopc_t6_kvm.Admin.Call.{
  World, Host, AdminError, foreign, conflict, gadget_active, no_object, Do, pure, raise, look, from,
  raise_if, ◌>>=◌, ◌>>◌, unset, run,
}
use nanopc_t6_kvm.Admin.Checks.{
  place, below, no_symlink, read, read_manifest, units, ensure_stopped,
}
use nanopc_t6_kvm.Admin.Release.{current, is_release_link}

abbrev pub unit_file : List ℕ → Location
unit_file = below (place "etc/systemd/system")

-- `manifest.get("units",{}).get(name)`
abbrev pub unit_digest : List ℕ → Fields → Result AdminError (Option Value)
unit_digest name m = elim (get (codes "units") m) [
  | none ↦ ok none
  | some (obj us) ↦ ok (get name us)
  | some v ↦ err no_object
]

abbrev pub owner_json : Location
owner_json = place "run/t6-kvm-otg/owner.json"

abbrev pub to_release : Nodes → Bool
to_release ns = is_link (node_at current ns) && is_release_link (resolve ns current)

module _ (h : Host) where
  -- A unit that is there has the manifest's digest.
  unfoldable pub check_unit : Fields → List ℕ → Do (Unit {0})
  check_unit m name = do
    content ← read (unit_file name)
    noted ← from (unit_digest name m)
    raise_if (not (has_text (h.sha256 content) noted)) conflict

  unfoldable pub unit_conflicts : Fields → List (List ℕ) → Do (Unit {0})
  unit_conflicts m [] = pure tt
  unit_conflicts m (name ∷ names) = do
    no_symlink (unit_file name)
    there ← look (λ w. is_some (stat w.nodes (unit_file name)))
    if there then check_unit m name else pure tt
    unit_conflicts m names

  unfoldable pub remove_links : List Location → Do (Unit {0})
  remove_links [] = pure tt
  remove_links (l ∷ ls) = do unset h l; remove_links ls

  -- `systemctl disable`
  unfoldable pub disable : List ℕ → Do (Unit {0})
  disable name = do
    run h (codes "systemctl" ∷ codes "disable" ∷ name ∷ [])
    remove_links (h.wants name)

  unfoldable pub remove_units : List (List ℕ) → Do (Unit {0})
  remove_units [] = pure tt
  remove_units (name ∷ names) = do disable name; unset h (unit_file name); remove_units names

  unfoldable pub remove_current : Do (Unit {0})
  remove_current = do
    own ← look (λ w. to_release w.nodes)
    there ← look (λ w. is_some (stat w.nodes current))
    if own then unset h current else raise_if there foreign

  unfoldable pub take_down : Do (Unit {0})
  take_down = do
    ensure_stopped h units
    active ← look (λ w. is_some (stat w.nodes owner_json))
    raise_if active gadget_active
    remove_units units
    remove_current
    run h (codes "systemctl" ∷ codes "daemon-reload" ∷ [])

  unfoldable pub uninstall : (apply : Bool) → Do (Unit {0})
  uninstall apply = do
    m ← read_manifest h
    unit_conflicts m units
    if apply then take_down else pure tt
