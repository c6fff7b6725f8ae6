-- ===== src/Admin/Main.antt =====
-- `main` of tools/admin.py.
pub mod Dry
use nanopc_t6_kvm.Base.{ℕ, Bool, ◌&&◌, not, List, ◌∷◌, Option, some, ◌==◌}
use nanopc_t6_kvm.Admin.{Location}
use nanopc_t6_kvm.Admin.Call.{
  World, Host, AdminError, not_root, no_argument, Do, pure, raise, raise_if, ◌>>=◌, ◌>>◌,
}
use nanopc_t6_kvm.Admin.Backup.{restore, backup}
use nanopc_t6_kvm.Admin.Release.{rollback}
use nanopc_t6_kvm.Admin.Uninstall.{uninstall}
use nanopc_t6_kvm.Admin.Install.{install}

pub data Operation : Type 0 where
  install_release roll_back remove keep put_back : Operation

-- The options, a path with whether it is absolute.
pub record Args : Type 0 where
  pub operation : Operation
  pub stage : Option (Bool × Location)
  pub release : Option (List ℕ)
  pub location : Option (Bool × Location)
  pub apply : Bool

-- An install without a stage or a release is refused.
abbrev pub asked :
    Host → Option (Bool × Location) → Option (List ℕ) → (apply : Bool) → Do (Unit {0})
asked h (some (absolute, l)) (some (c ∷ cs)) apply = install h absolute l (c ∷ cs) apply
asked h stage release apply = raise no_argument

module _ (h : Host) where
  abbrev pub perform : Operation → Args → Do (Unit {0})
  perform install_release a = asked h a.stage a.release a.apply
  perform roll_back a = rollback h a.release a.apply
  perform remove a = uninstall h a.apply
  perform keep a = backup h a.location a.apply
  perform put_back a = restore h a.location a.apply

  -- An error is the exit with its text.
  unfoldable pub main : Args → Do (Unit {0})
  main a = raise_if (a.apply && not (h.euid == 0)) not_root >> perform a.operation a
