-- ===== src/Admin/Main/Dry.antt =====
-- A run of tools/admin.py without `--apply`.
use nanopc_t6_kvm.Base.{
  ℕ, ◌≡◌, ◌⊎◌, inl, inr, refl, sym, Bool, true, false, ◌&&◌, not, List, ◌∷◌, Option, none, some,
  ◌==◌, Bool-cases,
}
use nanopc_t6_kvm.Admin.{Location}
use mathlib.Core.Path.{subst}
use nanopc_t6_kvm.Value.{Fields}
use nanopc_t6_kvm.Admin.Call.{World, Host, no_argument, not_root, raise_if, go_on, ◌>>=◌}
use nanopc_t6_kvm.Admin.Call.Reads.{Reads, Reads-bind, Reads-raise_if, Reads-raise, reads_rules}
use nanopc_t6_kvm.Admin.Checks.Returned.{test_rules}
use nanopc_t6_kvm.Admin.Backup.{restore_record, restore, backup}
use nanopc_t6_kvm.Admin.Release.{rollback}
use nanopc_t6_kvm.Admin.Stage.Checked.{check_stage-Reads}
use nanopc_t6_kvm.Admin.Uninstall.{uninstall}
use nanopc_t6_kvm.Admin.Uninstall.Checked.{unit_conflicts-Reads}
use nanopc_t6_kvm.Admin.Install.{install, install_from, install_stage}
use nanopc_t6_kvm.Admin.Install.Keeps.{owned_if-Reads}
use nanopc_t6_kvm.Admin.Main.{
  Operation, install_release, roll_back, remove, keep, put_back, Args, asked, perform, main,
}

module _ (h : Host) where
  recorded : (r : Fields) → Reads (restore_record h r false)
  unfolding restore_record
  recorded r = search test_rules depth 20

  restored : (l : Option (Bool × Location)) → Reads (restore h l false)
  unfolding restore
  restored none = search test_rules
  restored (some (absolute, l)) = search (test_rules, recorded) depth 15

  kept : (l : Option (Bool × Location)) → Reads (backup h l false)
  unfolding backup
  kept none = search test_rules
  kept (some (absolute, l)) = search test_rules depth 12

  rolled : (release : Option (List ℕ)) → Reads (rollback h release false)
  unfolding rollback
  rolled release = search test_rules depth 12

  removed : Reads (uninstall h false)
  unfolding uninstall
  removed = search (test_rules, unit_conflicts-Reads) depth 12

  begun : (l : Location) (name : List ℕ) (there : Bool) → Reads (install_from h l name false there)
  unfolding install_from
  begun l name there = search (test_rules, unit_conflicts-Reads, owned_if-Reads) depth 20

  staged : (l : Location) (name : List ℕ) → Reads (install_stage h l name false)
  unfolding install_stage
  staged l name = search (reads_rules, begun)

  installed :
      (absolute : Bool) (l : Location) (name : List ℕ) → Reads (install h absolute l name false)
  unfolding install
  installed absolute l name = search (test_rules, check_stage-Reads, staged) depth 12

  asked_for :
      (s : Option (Bool × Location)) (release : Option (List ℕ)) → Reads (asked h s release false)
  asked_for (some (absolute, l)) (some (c ∷ cs)) = installed absolute l (c ∷ cs)
  asked_for s release = Reads-raise no_argument

  performed : (op : Operation) (a : Args) → a.apply ≡ false → Reads (perform h op a)
  performed install_release a e =
      subst (λ b. Reads (asked h a.stage a.release b)) (sym e) (asked_for a.stage a.release)
  performed roll_back a e = subst (λ b. Reads (rollback h a.release b)) (sym e) (rolled a.release)
  performed remove a e = subst (λ b. Reads (uninstall h b)) (sym e) removed
  performed keep a e = subst (λ b. Reads (backup h a.location b)) (sym e) (kept a.location)
  performed put_back a e = subst (λ b. Reads (restore h a.location b)) (sym e) (restored a.location)

  started : (a : Args) → a.apply ≡ false → Reads (main h a)
  unfolding main
  started a e = Reads-bind _ _ (Reads-raise_if _ not_root) (λ _. performed a.operation a e)

  refused : (a : Args) (w : World) → a.apply ≡ true → (h.euid == 0) ≡ false → (main h a w).0 ≡ w
  unfolding main ◌>>=◌ raise_if
  refused a w e k = go a.apply a e
    where
      go :
          (b : Bool) (a : Args)
          → b ≡ true
          → (go_on (raise_if (b && not (h.euid == 0)) not_root w) (λ _. perform h a.operation a)).0
            ≡ w
      go true a e = rw k refl
      go false a e = cc

  -- Without `--apply`, and for anyone but root, a run changes nothing: no file, no link, no unit, no account,
  -- whatever the operation and its options.
  pub main_dry :
      (a : Args) (w : World) → (a.apply ≡ false) ⊎ ((h.euid == 0) ≡ false) → (main h a w).0 ≡ w
  main_dry a w (inl e) = (started a e).same_world w
  main_dry a w (inr k) = elim (Bool-cases a.apply) [
    | inl e ↦ refused a w e k
    | inr e ↦ (started a e).same_world w
  ]
