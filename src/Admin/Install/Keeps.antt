-- ===== src/Admin/Install/Keeps.antt =====
-- What `install` of tools/admin.py leaves as it is on an upgrade.
use nanopc_t6_kvm.Base.{
  ℕ, ◌≡◌, inl, inr, refl, sym, ap, ◌∙◌, Bool, true, false, ◌||◌, not, List, [], ◌∷◌, ◌++◌, Option,
  none, some, Bool-cases, list_eq, list_eq_iff,
}
use mathlib.Core.Path.{subst}
use nanopc_t6_kvm.Broker.{codes}
use nanopc_t6_kvm.Endpoint.{is_some}
use nanopc_t6_kvm.Value.{Fields}
use nanopc_t6_kvm.Admin.{Location, same, within, Node, node_at, dir, stat}
use nanopc_t6_kvm.Admin.Files.{same_refl}
use nanopc_t6_kvm.Admin.Call.{World, Host, bad_release, Do, look, raise_if}
use nanopc_t6_kvm.Admin.Call.Reads.{Reads, Reads-look, Reads-raise_if, reads-cases, look-ok}
use nanopc_t6_kvm.Admin.Call.Spares.{
  Spares, Spares-wider, Spares-bind, Spares-if, Spares-from, Spares-set, Spares-pure, Spares-look,
  Spares-finally, Spares-raise_if, spares_rules,
}
use nanopc_t6_kvm.Admin.Checks.{
  base, etc, state, releases, marker, below, new_name, units, is_release, owned_dir, atomic,
  backups,
}
use nanopc_t6_kvm.Admin.Checks.Leaves.{
  created-Spares, atomic-Spares, read-Spares, read_manifest-Spares, ensure_stopped-Spares,
  no_symlink-Spares,
}
use nanopc_t6_kvm.Admin.Checks.Returned.{test_rules}
use nanopc_t6_kvm.Admin.Backup.{backup_file}
use nanopc_t6_kvm.Admin.Backup.Kept.{backup_file-Spares}
use nanopc_t6_kvm.Admin.Release.{switch_release}
use nanopc_t6_kvm.Admin.Release.Safe.{is_switched, switch_release-Spares}
use nanopc_t6_kvm.Admin.Stage.{check_stage}
use nanopc_t6_kvm.Admin.Stage.Checked.{check_stage-Reads}
use nanopc_t6_kvm.Admin.Uninstall.{unit_file}
use nanopc_t6_kvm.Admin.Uninstall.Checked.{unit_conflicts-Reads}
use nanopc_t6_kvm.Admin.Install.{
  owned_if, prepare, make_releases, copy_all, give_all, copy_tree, put_units, install_on,
  install_from, install_stage, install,
}

pub owned_if-Reads : (h : Host) (l : Location) → Reads (owned_if h l)
unfolding owned_if
owned_if-Reads h l = search test_rules depth 9

-- All but the configuration; the directory of the configuration and its marker are made where they are missing.
abbrev pub no_config : Host → Location → Bool
no_config h l =
    not (within etc l) || (same etc l || (same (marker etc) l || same (new_name h (marker etc)) l))

etc_switched : (h : Host) (l : Location) → no_config h l ≡ false → is_switched h l ≡ false
etc_switched h [] e = cc
etc_switched h (n ∷ l) e = elim (Bool-cases (list_eq (codes "etc") n)) [
  | inl here ↦
      subst (λ x. is_switched h (x ∷ l) ≡ false) ((list_eq_iff (codes "etc") n).0 here) refl
  | inr other ↦ let q : true ≡ false = rw other at e in cc
]

etc_backups : (h : Host) (l : Location) → no_config h l ≡ false → within backups l ≡ false
etc_backups h [] e = cc
etc_backups h (n ∷ l) e = elim (Bool-cases (list_eq (codes "etc") n)) [
  | inl here ↦
      subst (λ x. within backups (x ∷ l) ≡ false) ((list_eq_iff (codes "etc") n).0 here) refl
  | inr other ↦ let q : true ≡ false = rw other at e in cc
]

module _ (h : Host) where
  -- A part that leaves the configuration as it is.
  abbrev Apart : {A : Type 0} → Do A → Type 0
  Apart call = Spares (no_config h) call

  etc_made : Apart (owned_dir h true etc)
  etc_made = created-Spares h etc refl refl (rw (same_refl (new_name h (marker etc))) refl)

  copy_all-Apart :
      (name : List ℕ) (es : List (Location × Node)) → Apart (copy_all h (below releases name) es)
  unfolding copy_all
  copy_all-Apart name [] = Spares-pure tt
  copy_all-Apart name ((rel, n) ∷ es) =
      Spares-finally _ _
        (Spares-bind _ _ (Spares-from _)
          (λ made. Spares-set h (below releases name ++ rel) made refl))
        (copy_all-Apart name es)

  give_all-Apart :
      (name : List ℕ) (es : List (Location × Node)) → Apart (give_all h (below releases name) es)
  unfolding give_all
  give_all-Apart name [] = Spares-pure tt
  give_all-Apart name ((rel, n) ∷ es) =
      Spares-bind _ _ (Spares-set h (below releases name ++ rel) _ refl) (λ _.
        Spares-bind _ _
          (Spares-if _ _ _ (Spares-pure tt) (Spares-set h (below releases name ++ rel) _ refl))
          (λ _. give_all-Apart name es))

  copy_tree-Apart :
      (root : Location) (name : List ℕ) → Apart (copy_tree h root (below releases name))
  unfolding copy_tree
  copy_tree-Apart root name = search (spares_rules, copy_all-Apart, give_all-Apart) depth 15

  unit_backup : (name : List ℕ) → Apart (backup_file h (unit_file name))
  unit_backup name = Spares-wider (etc_backups h) (backup_file-Spares h (unit_file name))

  unit_write :
      (name content : List ℕ) (mode uid gid : ℕ)
      → Apart (atomic h (unit_file name) content mode uid gid)
  unit_write name content mode uid gid =
      atomic-Spares h (unit_file name) content mode uid gid refl refl

  put_units-Apart :
      (root : Location) (m : Fields) (names : List (List ℕ)) → Apart (put_units h root m names)
  unfolding put_units
  put_units-Apart root m [] = Spares-pure m
  put_units-Apart root m (name ∷ names) = Spares-bind _ _ (Spares-look _) (λ there.
      Spares-bind _ _
        (Spares-if there _ _ (Spares-bind _ _ (unit_backup name) (λ _. Spares-pure tt))
          (Spares-pure tt))
        (λ _. Spares-bind _ _ (read-Spares _) (λ content.
          Spares-bind _ _ (unit_write name content _ _ _) (λ _.
            Spares-bind _ _ (read-Spares _) (λ written.
              Spares-bind _ _ (Spares-from _) (λ noted. put_units-Apart root noted names))))))

  switched : (name : List ℕ) (m : Fields) → Apart (switch_release h name m)
  switched name m = Spares-wider (etc_switched h) (switch_release-Spares h name m)

  make_releases-Apart : (n : Option Node) → Apart (make_releases h n)
  make_releases-Apart none = search spares_rules
  make_releases-Apart (some (dir uid mode)) = search spares_rules
  make_releases-Apart (some n) = search spares_rules

  prepare-Apart : Apart (prepare h false)
  unfolding prepare
  prepare-Apart =
      search
        (
          spares_rules, ensure_stopped-Spares, created-Spares, etc_made, no_symlink-Spares,
          make_releases-Apart,
        )
        depth 24

  install_on-Apart :
      (root : Location) (name : List ℕ) (m : Fields) → Apart (install_on h root name false m)
  unfolding install_on
  install_on-Apart root name m =
      search (spares_rules, prepare-Apart, copy_tree-Apart, put_units-Apart, switched) depth 14

  reads-Apart : {A : Type 0} {call : Do A} → Reads call → Apart call
  reads-Apart reads = record { at = λ l free w. ap (λ x. node_at l x.nodes) (reads.same_world w) }

  install_from-Apart :
      (root : Location) (name : List ℕ) (apply : Bool) → Apart (install_from h root name apply true)
  unfolding install_from
  install_from-Apart root name apply = Spares-bind _ _ (read_manifest-Spares h) (λ m.
      Spares-bind _ _ (reads-Apart (owned_if-Reads h etc)) (λ _.
        Spares-bind _ _ (reads-Apart (owned_if-Reads h state)) (λ _.
          Spares-bind _ _ (reads-Apart (unit_conflicts-Reads h m units)) (λ _.
            Spares-bind _ _ (Spares-look _) (λ taken.
              Spares-bind _ _ (Spares-raise_if _ _)
                (λ _. Spares-if apply _ _ (install_on-Apart root name m) (Spares-pure tt)))))))

  staged_kept :
      (root : Location) (name : List ℕ) (apply : Bool) (w : World) (k : Location)
      → is_some (stat w.nodes base) ≡ true
      → no_config h k ≡ false
      → node_at k (install_stage h root name apply w).0.nodes ≡ node_at k w.nodes
  unfolding install_stage
  staged_kept root name apply w k there free =
      elim (reads-cases (look (λ w. is_some (stat w.nodes base))) (install_from h root name apply) w
        (Reads-look _)) [
          | inl e ↦ ap (λ x. node_at k x.nodes) e
          | inr (b, seen, e) ↦
              let found : b ≡ true =
                sym (look-ok (λ w. is_some (stat w.nodes base)) w seen) ∙ there in
              ap (λ x. node_at k x.nodes) e
              ∙ subst
                  (λ c. node_at k (install_from h root name apply c w).0.nodes ≡ node_at k w.nodes)
                  (sym found) ((install_from-Apart root name apply).at k free w)
        ]

  -- Where /opt/t6-kvm is there, an installation leaves every location below /etc/t6-kvm as it is, whatever calls
  -- fail, but for the directory itself, its marker and the name that the marker is written under.
  pub install-etc :
      (absolute : Bool) (l : Location) (name : List ℕ) (apply : Bool) (w : World) (k : Location)
      → is_some (stat w.nodes base) ≡ true
      → no_config h k ≡ false
      → node_at k (install h absolute l name apply w).0.nodes ≡ node_at k w.nodes
  unfolding install
  install-etc absolute l name apply w k there free =
      elim (reads-cases (check_stage h absolute l) _ w (check_stage-Reads h absolute l)) [
        | inl e ↦ ap (λ x. node_at k x.nodes) e
        | inr (root, _, e) ↦
            elim (reads-cases (raise_if (not (is_release name)) bad_release)
              (λ _. install_stage h root name apply) w (Reads-raise_if _ _)) [
                | inl e1 ↦ ap (λ x. node_at k x.nodes) (e ∙ e1)
                | inr (_, _, e1) ↦
                    ap (λ x. node_at k x.nodes) (e ∙ e1)
                    ∙ staged_kept root name apply w k there free
              ]
      ]
