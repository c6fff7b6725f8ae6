-- ===== src/Admin/Install/Behind.antt =====
-- What `install` of tools/admin.py does behind its copy leaves the directory of the release as it is.
use nanopc_t6_kvm.Base.{
  ℕ, ◌≡◌, inl, inr, refl, sym, Bool, true, false, not, List, [], ◌∷◌, ◌++◌, Bool-cases, list_eq,
  list_eq_iff,
}
use mathlib.Core.Path.{subst}
use nanopc_t6_kvm.Value.{Fields}
use nanopc_t6_kvm.Admin.{Location, within}
use nanopc_t6_kvm.Admin.Call.{Host, Do}
use nanopc_t6_kvm.Admin.Call.Spares.{
  Spares, Spares-wider, Spares-bind, Spares-if, Spares-from, Spares-pure, Spares-look, spares_rules,
}
use nanopc_t6_kvm.Admin.Checks.{etc, releases, below, atomic, backups}
use nanopc_t6_kvm.Admin.Checks.Leaves.{atomic-Spares, read-Spares}
use nanopc_t6_kvm.Admin.Backup.{backup_file}
use nanopc_t6_kvm.Admin.Backup.Kept.{backup_file-Spares}
use nanopc_t6_kvm.Admin.Release.{switch_release}
use nanopc_t6_kvm.Admin.Release.Safe.{is_switched, switch_release-Spares}
use nanopc_t6_kvm.Admin.Uninstall.{unit_file}
use nanopc_t6_kvm.Admin.Install.{put_configs, first_configs, put_units}

within_split : (d l : Location) → within d l ≡ true → (t : Location) × (l ≡ d ++ t)
within_split [] l e = (l, refl)
within_split (n ∷ ns) [] e = cc
within_split (n ∷ ns) (m ∷ ms) e = elim (Bool-cases (list_eq n m)) [
  | inl here ↦
      let (t, q) = within_split ns ms (rw here at e) in
      let p : n ≡ m = (list_eq_iff n m).0 here in (t, rw (p, q) refl)
  | inr apart ↦ let q = rw apart at e in cc
]

true_by : (b : Bool) → not b ≡ false → b ≡ true
true_by true e = refl
true_by false e = cc

-- All but what is below the directory of the releases.
abbrev pub no_release : Location → Bool
no_release l = not (within releases l)

module _ (h : Host) where
  release_switched : (l : Location) → no_release l ≡ false → is_switched h l ≡ false
  release_switched l e =
      let (t, q) = within_split releases l (true_by (within releases l) e) in
      subst (λ x. is_switched h x ≡ false) (sym q) refl

  release_backups : (l : Location) → no_release l ≡ false → within backups l ≡ false
  release_backups l e =
      let (t, q) = within_split releases l (true_by (within releases l) e) in
      subst (λ x. within backups x ≡ false) (sym q) refl

  abbrev pub Clear : {A : Type 0} → Do A → Type 0
  Clear call = Spares no_release call

  config_write :
      (name content : List ℕ) (mode uid gid : ℕ)
      → Clear (atomic h (below etc name) content mode uid gid)
  config_write name content mode uid gid =
      atomic-Spares h (below etc name) content mode uid gid refl refl

  unit_write :
      (name content : List ℕ) (mode uid gid : ℕ)
      → Clear (atomic h (unit_file name) content mode uid gid)
  unit_write name content mode uid gid =
      atomic-Spares h (unit_file name) content mode uid gid refl refl

  unit_backup : (name : List ℕ) → Clear (backup_file h (unit_file name))
  unit_backup name = Spares-wider release_backups (backup_file-Spares h (unit_file name))

  put_configs-Clear :
      (root : Location) (gid : ℕ) (names : List (List ℕ)) → Clear (put_configs h root gid names)
  unfolding put_configs
  put_configs-Clear root gid [] = Spares-pure tt
  put_configs-Clear root gid (name ∷ names) = Spares-bind _ _ (read-Spares _) (λ content.
      Spares-bind _ _ (config_write name content _ _ _) (λ _. put_configs-Clear root gid names))

  pub first_configs-Clear : (root : Location) (gid : ℕ) → Clear (first_configs h root gid)
  unfolding first_configs
  first_configs-Clear root gid = search (spares_rules, put_configs-Clear, config_write) depth 16

  pub put_units-Clear :
      (root : Location) (m : Fields) (names : List (List ℕ)) → Clear (put_units h root m names)
  unfolding put_units
  put_units-Clear root m [] = Spares-pure m
  put_units-Clear root m (name ∷ names) = Spares-bind _ _ (Spares-look _) (λ there.
      Spares-bind _ _
        (Spares-if there _ _ (Spares-bind _ _ (unit_backup name) (λ _. Spares-pure tt))
          (Spares-pure tt))
        (λ _. Spares-bind _ _ (read-Spares _) (λ content.
          Spares-bind _ _ (unit_write name content _ _ _) (λ _.
            Spares-bind _ _ (read-Spares _) (λ written.
              Spares-bind _ _ (Spares-from _) (λ noted. put_units-Clear root noted names))))))

  pub switch_release-Clear : (name : List ℕ) (m : Fields) → Clear (switch_release h name m)
  switch_release-Clear name m = Spares-wider release_switched (switch_release-Spares h name m)
