-- ===== src/Admin/Install/Shown.antt =====
-- What holds where `install` of tools/admin.py has returned.
use nanopc_t6_kvm.Base.{
  ℕ, ◌≡◌, refl, sym, ap, ◌∙◌, Bool, true, false, not, List, [], ◌∷◌, ◌++◌, if◌then◌else◌, ok,
}
use mathlib.Core.Path.{subst}
use nanopc_t6_kvm.Broker.{codes}
use nanopc_t6_kvm.Value.{Value, Fields, obj}
use nanopc_t6_kvm.Admin.{Location, Node, put, node_at, stat}
use nanopc_t6_kvm.Endpoint.{is_some}
use nanopc_t6_kvm.Admin.Install.Keeps.{owned_if-Reads}
use nanopc_t6_kvm.Admin.Uninstall.Checked.{unit_conflicts-Reads}
use nanopc_t6_kvm.Admin.Call.{
  World, Host, pure, Do, ◌>>=◌, ◌>>◌, run, look, raise_if, exists, bad_release,
}
use nanopc_t6_kvm.Admin.Call.Reads.{
  bind-ok, reads-ok, change-ok, ended, look-ok, Reads-if, Reads-pure, Reads-look, Reads-raise_if,
}
use nanopc_t6_kvm.Admin.Checks.{install_json, base, below, releases, etc, state, units, is_release}
use nanopc_t6_kvm.Admin.Checks.Returned.{IsFile, read_manifest-Reads}
use nanopc_t6_kvm.Admin.Stage.{check_stage, entries}
use nanopc_t6_kvm.Admin.Call.Spares.{Spares-bind, Spares-if, Spares-pure, Spares-run}
use nanopc_t6_kvm.Admin.Install.Copied.{IsCopied, IsCopied-same, copy_tree-IsCopied}
use nanopc_t6_kvm.Admin.Install.Behind.{
  Clear, first_configs-Clear, put_units-Clear, switch_release-Clear,
}
use nanopc_t6_kvm.Admin.Stage.Checked.{check_stage-Reads, IsRoot, IsStage, check_stage-IsStage}
use nanopc_t6_kvm.Admin.Release.{current, get_or_null, switch_release}
use nanopc_t6_kvm.Admin.Release.Moves.{Shows, switch_release-Shows}
use nanopc_t6_kvm.Admin.Install.{
  prepare, copy_tree, owned_if, first_configs, put_units, install_on, install_from, install_stage,
  install,
}

run-nodes :
    (h : Host) (argv : List (List ℕ)) (w : World) {v : World}
    → run h argv w ≡ (v, ok tt)
    → v.nodes ≡ w.nodes
unfolding run
run-nodes h argv w e =
    ap (λ x. x.nodes) (change-ok h (λ w. record w { commands = w.commands ++ (argv ∷ []) }) w e)

Shows-nodes :
    (h : Host) (w v : World) (name : List ℕ) (previous : Value)
    → v.nodes ≡ w.nodes
    → Shows h w name previous
    → Shows h v name previous
Shows-nodes h w v name previous e s = record {
  linked = ap (node_at current) e ∙ s.linked;
  manifest = s.manifest;
  saved = subst (λ ns. IsFile (node_at install_json ns) (h.print (obj s.manifest))) (sym e) s.saved;
  now = s.now;
  last = s.last;
}

-- The release is shown, in front of some release before or none.
abbrev pub Installs : Host → World → List ℕ → Type 0
Installs h v name = (previous : Value) × Shows h v name previous

not-not : (b : Bool) → not (not b) ≡ b
not-not true = refl
not-not false = refl

last-Shows :
    (h : Host) (name : List ℕ) (m : Fields) (w : World) {v : World}
    → (switch_release h name m >> run h (codes "systemctl" ∷ codes "daemon-reload" ∷ [])) w
      ≡ (v, ok tt)
    → Installs h v name
last-Shows h name m w {v} e =
    let (_, moved, e1) = bind-ok (switch_release h name m) _ w e in
    (
      get_or_null (codes "current") m,
      Shows-nodes h (switch_release h name m w).0 v name (get_or_null (codes "current") m)
          (run-nodes h _ _ e1)
          (switch_release-Shows h name m w (ended (switch_release h name m w) moved)),
    )

-- Where the call returns, this holds of the world behind it.
record Ends {A : Type 0} (P : World → Type 0) (call : Do A) : Type 0 where
  at : (w : World) {v : World} {a : A} → call w ≡ (v, ok a) → P v

Ends-bind :
    {A B : Type 0} {P : World → Type 0} (call : Do A) (next : A → Do B)
    → ((a : A) → Ends P (next a))
    → Ends P (call >>= next)
Ends-bind call next k = record {
  at = λ w e. let (a, _, rest) = bind-ok call next w e in (k a).at _ rest;
}

module _ (h : Host) where
  last-Ends :
      (name : List ℕ) (m : Fields)
      → Ends
          (λ v. Installs h v name)
          (switch_release h name m >> run h (codes "systemctl" ∷ codes "daemon-reload" ∷ []))
  last-Ends name m = record { at = λ w e. last-Shows h name m w e }

  install_on-Ends :
      (root : Location) (name : List ℕ) (initial : Bool) (m : Fields)
      → Ends (λ v. Installs h v name) (install_on h root name initial m)
  unfolding install_on
  install_on-Ends root name initial m = search (last-Ends, Ends-bind) depth 16

  install_from-Ends :
      (root : Location) (name : List ℕ) (there : Bool)
      → Ends (λ v. Installs h v name) (install_from h root name true there)
  unfolding install_from
  install_from-Ends root name there = search (install_on-Ends, Ends-bind) depth 10

  install_stage-Ends :
      (root : Location) (name : List ℕ)
      → Ends (λ v. Installs h v name) (install_stage h root name true)
  unfolding install_stage
  install_stage-Ends root name = search (install_from-Ends, Ends-bind)

  install_from-on :
      (root : Location) (name : List ℕ) (there : Bool) (w : World) {v : World}
      → install_from h root name true there w ≡ (v, ok tt)
      → (m : Fields) × (install_on h root name (not there) m w ≡ (v, ok tt))
  unfolding install_from
  install_from-on root name there w e =
      let (m, _, e1) =
        reads-ok _ _ w (Reads-if there _ _ (read_manifest-Reads h) (Reads-pure _)) e in
      let (_, _, e2) = reads-ok (owned_if h etc) _ w (owned_if-Reads h etc) e1 in
      let (_, _, e3) = reads-ok (owned_if h state) _ w (owned_if-Reads h state) e2 in
      let (_, _, e4) = reads-ok _ _ w (unit_conflicts-Reads h m units) e3 in
      let (taken, _, e5) = reads-ok _ _ w (Reads-look _) e4 in
      let (_, _, e6) = reads-ok (raise_if taken exists) _ w (Reads-raise_if _ _) e5 in (m, e6)

  -- What follows the copy.
  abbrev behind_copy : Location → List ℕ → (initial : Bool) → Fields → ℕ → Do (Unit {0})
  behind_copy root name initial m gid =
      (if initial then first_configs h root gid else pure tt)
      >> (put_units h root m units >>= (λ noted.
          switch_release h name noted >> run h (codes "systemctl" ∷ codes "daemon-reload" ∷ [])))

  behind_copy-Clear :
      (root : Location) (name : List ℕ) (initial : Bool) (m : Fields) (gid : ℕ)
      → Clear h (behind_copy root name initial m gid)
  behind_copy-Clear root name initial m gid =
      Spares-bind _ _ (Spares-if initial _ _ (first_configs-Clear h root gid) (Spares-pure tt))
        (λ _.
          Spares-bind _ _ (put_units-Clear h root m units)
            (λ noted. Spares-bind _ _ (switch_release-Clear h name noted) (λ _. Spares-run h _)))

  -- The world behind the preparations, with the directory of the release.
  abbrev pub IsCopyOf : Location → List ℕ → (initial : Bool) → World → World → Type 0
  IsCopyOf root name initial w v =
      (top : Node) × IsCopied (below releases name)
        (entries root (put (below releases name) top (prepare h initial w).0.nodes)) v.nodes

  install_on-IsCopyOf :
      (root : Location) (name : List ℕ) (initial : Bool) (m : Fields) (w : World) {v : World}
      → install_on h root name initial m w ≡ (v, ok tt)
      → IsCopyOf root name initial w v
  unfolding install_on
  install_on-IsCopyOf root name initial m w {v} e =
      let (gid, _, e1) = bind-ok (prepare h initial) _ w e in
      let u = (prepare h initial w).0 in
      let (_, done, e2) = bind-ok (copy_tree h root (below releases name)) _ u e1 in
      let c = (copy_tree h root (below releases name) u).0 in
      let (top, copied) =
        copy_tree-IsCopied h root (below releases name) u
          (ended (copy_tree h root (below releases name) u) done) in
      (
        top,
        IsCopied-same (below releases name) _ c.nodes v.nodes
            (λ rel.
              ap (λ r. node_at (below releases name ++ rel) r.0.nodes) (sym e2)
              ∙ (behind_copy-Clear root name initial m gid).at (below releases name ++ rel) refl c)
            copied,
      )

  -- What an installation of a release has done.
  pub record IsInstalled (absolute : Bool) (l : Location) (name : List ℕ) (w v : World)
      : Type 0 where
    pub root : Location
    pub asked : IsRoot h w absolute l root
    pub stage : IsStage h w root
    pub initial : Bool
    pub first : not initial ≡ is_some (stat w.nodes base)
    pub copied : IsCopyOf root name initial w v
    pub shown : Installs h v name

  install_stage-IsCopyOf :
      (root : Location) (name : List ℕ) (w : World) {v : World}
      → install_stage h root name true w ≡ (v, ok tt)
      → (there : Bool) × (is_some (stat w.nodes base) ≡ there) × IsCopyOf root name (not there) w v
  unfolding install_stage
  install_stage-IsCopyOf root name w e =
      let (there, seen, e1) =
        reads-ok (look (λ w. is_some (stat w.nodes base))) _ w (Reads-look _) e in
      let (m, e2) = install_from-on root name there w e1 in
      (
        there,
        look-ok (λ w. is_some (stat w.nodes base)) w seen,
        install_on-IsCopyOf root name (not there) m w e2,
      )

  -- An installation that has returned was of what the argument resolves to, which has passed every test of a
  -- stage in the world before it; each entry of this stage, as it stands when the preparations of a first or of
  -- a later installation are done and the release's directory is there, stands in this directory at the end,
  -- as a directory, as a file with the same content or as a link with the same target; and the link current
  -- leads to the new release, which install.json has as the current one, with a previous.
  pub install-IsInstalled :
      (absolute : Bool) (l : Location) (name : List ℕ) (w : World) {v : World}
      → install h absolute l name true w ≡ (v, ok tt)
      → IsInstalled absolute l name w v
  unfolding install
  install-IsInstalled absolute l name w e =
      let (root, got, rest) =
        reads-ok (check_stage h absolute l) _ w (check_stage-Reads h absolute l) e in
      let (_, _, e1) =
        reads-ok (raise_if (not (is_release name)) bad_release) _ w (Reads-raise_if _ _) rest in
      let (there, first, copied) = install_stage-IsCopyOf root name w e1 in
      let (asked, stage) = check_stage-IsStage h absolute l w got in
      record {
        root = root;
        asked = asked;
        stage = stage;
        initial = not there;
        first = not-not there ∙ sym first;
        copied = copied;
        shown = (install_stage-Ends root name).at w e1;
      }
