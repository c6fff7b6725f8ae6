-- ===== src/Admin/Checks/Leaves.antt =====
-- What the shared parts of tools/admin.py leave as it is.
use nanopc_t6_kvm.Base.{ℕ, ◌≡◌, Bool, true, false, List, [], ◌∷◌}
use nanopc_t6_kvm.Admin.{Location}
use nanopc_t6_kvm.Admin.Call.{Host}
use nanopc_t6_kvm.Admin.Call.Spares.{Spares-bind, Spares-raise_if, Spares, spares_rules}
use nanopc_t6_kvm.Admin.Checks.{
  no_symlink, read, new_name, write_new, atomic, marker, check_owned, make_owned, owned_dir,
  read_object, read_manifest, resolve_release, ensure_stopped, checked_config_path,
}

module _ {own : Location → Bool} where
  pub no_symlink-Spares : (l : Location) → Spares own (no_symlink l)
  unfolding no_symlink
  no_symlink-Spares l = search spares_rules

  pub read-Spares : (l : Location) → Spares own (read l)
  unfolding read
  read-Spares l = search spares_rules

  pub check_owned-Spares : (l : Location) → Spares own (check_owned l)
  unfolding check_owned
  check_owned-Spares l = search spares_rules depth 9

module _ {own : Location → Bool} (h : Host) where
  pub write_new-Spares :
      (l : Location) (content : List ℕ) (mode uid gid : ℕ)
      → own (new_name h l) ≡ true
      → own l ≡ true
      → Spares own (write_new h l content mode uid gid)
  write_new-Spares l content mode uid gid mine new = search spares_rules depth 8

  pub atomic-Spares :
      (l : Location) (content : List ℕ) (mode uid gid : ℕ)
      → own (new_name h l) ≡ true
      → own l ≡ true
      → Spares own (atomic h l content mode uid gid)
  unfolding atomic
  atomic-Spares l content mode uid gid mine new =
      search (spares_rules, no_symlink-Spares, write_new-Spares) depth 12

  pub owned_dir-Spares : (l : Location) → Spares own (owned_dir h false l)
  unfolding owned_dir
  owned_dir-Spares l = search (spares_rules, no_symlink-Spares, check_owned-Spares) depth 9

  pub make_owned-Spares :
      (l : Location)
      → own l ≡ true
      → own (marker l) ≡ true
      → own (new_name h (marker l)) ≡ true
      → Spares own (make_owned h l)
  unfolding make_owned
  make_owned-Spares l a b c = search (spares_rules, atomic-Spares) depth 12

  pub created-Spares :
      (l : Location)
      → own l ≡ true
      → own (marker l) ≡ true
      → own (new_name h (marker l)) ≡ true
      → Spares own (owned_dir h true l)
  unfolding owned_dir
  created-Spares l a b c =
      search (spares_rules, no_symlink-Spares, check_owned-Spares, make_owned-Spares) depth 9

  pub read_object-Spares : (l : Location) → Spares own (read_object h l)
  unfolding read_object
  read_object-Spares l = search (spares_rules, read-Spares)

  pub read_manifest-Spares : Spares own (read_manifest h)
  unfolding read_manifest
  read_manifest-Spares =
      search (spares_rules, owned_dir-Spares, no_symlink-Spares, read_object-Spares) depth 9

  pub resolve_release-Spares : (name : List ℕ) → Spares own (resolve_release h name)
  unfolding resolve_release
  resolve_release-Spares name = search (spares_rules, no_symlink-Spares, read_object-Spares) depth 9

  pub ensure_stopped-Spares : (us : List (List ℕ)) → Spares own (ensure_stopped h us)
  unfolding ensure_stopped
  ensure_stopped-Spares [] = search spares_rules
  ensure_stopped-Spares (u ∷ us) =
      Spares-bind _ _ (Spares-raise_if _ _) (λ _. ensure_stopped-Spares us)

  pub checked_config_path-Spares :
      (absolute : Bool) (l : Location) → Spares own (checked_config_path absolute l)
  unfolding checked_config_path
  checked_config_path-Spares absolute l = search (spares_rules, no_symlink-Spares) depth 9

pub ruleset check_rules = (
  spares_rules, no_symlink-Spares, read-Spares, check_owned-Spares, atomic-Spares, owned_dir-Spares,
  read_object-Spares, read_manifest-Spares, resolve_release-Spares, ensure_stopped-Spares,
  checked_config_path-Spares,
)
