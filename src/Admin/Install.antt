-- ===== src/Admin/Install.antt =====
-- `install` of tools/admin.py.
pub mod Keeps
pub mod Held
pub mod Copied
pub mod Behind
pub mod Shown
use nanopc_t6_kvm.Base.{
  ℕ, ◌-◌, Bool, true, false, ◌||◌, not, List, [], ◌∷◌, ◌++◌, Option, none, some, if◌then◌else◌,
  has_bit, Result, ok, err,
}
use nanopc_t6_kvm.Broker.{codes}
use nanopc_t6_kvm.Endpoint.{is_some}
use nanopc_t6_kvm.Value.{Value, Fields, end, field, get, obj, str}
use nanopc_t6_kvm.Admin.{
  Location, same, Node, dir, file, link, special, Nodes, node_at, is_link, resolve, stat,
}
use nanopc_t6_kvm.Admin.Call.{
  World, Host, AdminError, bad_release, exists, account, key_error, no_object, os_error, Do, pure,
  raise, look, from, raise_if, ◌>>=◌, ◌>>◌, set, run, finally,
}
use nanopc_t6_kvm.Admin.Checks.{
  place, base, etc, state, project, below, no_symlink, read, is_release, releases, units, atomic,
  owned_dir, read_manifest, ensure_stopped,
}
use nanopc_t6_kvm.Admin.Backup.{backup_file}
use nanopc_t6_kvm.Admin.Release.{set_field, switch_release}
use nanopc_t6_kvm.Admin.Stage.{lstat, entries, check_stage}
use nanopc_t6_kvm.Admin.Uninstall.{unit_file, unit_conflicts}

abbrev pub first_manifest : Fields
first_manifest = field (codes "project") (str project) (field (codes "units") (obj end) end)

abbrev pub group : Option ℕ → Result AdminError ℕ
group none = err key_error
group (some gid) = ok gid

-- A node as `copytree` makes it anew; a special file is an error.
abbrev pub copied : Host → Node → Result AdminError Node
copied h (dir uid mode) = ok (dir h.euid mode)
copied h (file content uid gid mode) = ok (file content h.euid h.egid mode)
copied h (link absolute target) = ok (link absolute target)
copied h special = err os_error

-- `mode&~0o022`
abbrev pub closed : ℕ → ℕ
closed mode =
    let mode' = if has_bit mode 4 then mode - 16 else mode in
    if has_bit mode 1 then mode' - 2 else mode'

abbrev pub given_to_root : Node → Node
given_to_root (dir uid mode) = dir 0 mode
given_to_root (file content uid gid mode) = file content 0 0 mode
given_to_root n = n

abbrev pub not_for_others : Node → Node
not_for_others (dir uid mode) = dir uid (closed mode)
not_for_others (file content uid gid mode) = file content uid gid (closed mode)
not_for_others n = n

-- `m["units"][name]=digest`
abbrev pub with_unit : List ℕ → List ℕ → Fields → Result AdminError Fields
with_unit name digest m = elim (get (codes "units") m) [
  | none ↦ err key_error
  | some (obj us) ↦ ok (set_field (codes "units") (obj (set_field name (str digest) us)) m)
  | some v ↦ err no_object
]

abbrev pub configs : List (List ℕ)
configs =
    codes "main.yaml"
    ∷ codes "override.yaml"
    ∷ codes "meta.yaml"
    ∷ codes "platform"
    ∷ codes "streamer.toml"
    ∷ []

module _ (h : Host) where
  abbrev pub make_releases : Option Node → Do (Unit {0})
  make_releases none = set h releases (dir h.euid 0o755)
  make_releases (some (dir uid mode)) = pure tt
  make_releases (some n) = raise os_error

  unfoldable pub owned_if : Location → Do (Unit {0})
  owned_if l = do
    there ← look (λ w. is_some (stat w.nodes l))
    if there then owned_dir h false l else pure tt

  unfoldable pub add_account : Do (Unit {0})
  add_account = do
    raise_if h.taken account
    run h (codes "groupadd" ∷ codes "--system" ∷ project ∷ [])
    run h (
        codes "useradd"
        ∷ codes "--system"
        ∷ codes "--gid"
        ∷ project
        ∷ codes "--home-dir"
        ∷ codes "/nonexistent"
        ∷ codes "--no-create-home"
        ∷ codes "--shell"
        ∷ codes "/usr/sbin/nologin"
        ∷ project
        ∷ [])

  -- An entry that fails is passed over, and the error raised at the end.
  unfoldable pub copy_all : Location → List (Location × Node) → Do (Unit {0})
  copy_all dest [] = pure tt
  copy_all dest ((rel, n) ∷ es) =
      finally (from (copied h n) >>= λ made. set h (dest ++ rel) made) (copy_all dest es)

  -- `chown` and `chmod`, of what is no link.
  unfoldable pub give_all : Location → List (Location × Node) → Do (Unit {0})
  give_all dest [] = pure tt
  give_all dest ((rel, n) ∷ es) = do
    set h (dest ++ rel) (given_to_root n)
    if is_link (some n) then pure tt else set h (dest ++ rel) (not_for_others (given_to_root n))
    give_all dest es

  -- The directory itself is made as the one that is copied.
  unfoldable pub copy_tree : Location → Location → Do (Unit {0})
  copy_tree root dest = do
    top ← look (λ w. stat w.nodes root)
    n ← from (elim top [ none ↦ err os_error | some n ↦ copied h n ])
    set h dest n
    es ← look (λ w. entries root w.nodes)
    copy_all dest es
    made ← look (λ w. node_at dest w.nodes)
    below_it ← look (λ w. entries dest w.nodes)
    give_all dest (elim made [ none ↦ below_it | some n ↦ ([], n) ∷ below_it ])

  unfoldable pub put_configs : Location → ℕ → List (List ℕ) → Do (Unit {0})
  put_configs root gid [] = pure tt
  put_configs root gid (name ∷ names) = do
    content ← read (below (below root (codes "config")) name)
    atomic h (below etc name) content 0o640 0 gid
    put_configs root gid names

  unfoldable pub first_configs : Location → ℕ → Do (Unit {0})
  first_configs root gid = do
    put_configs root gid configs
    there ← look (λ w. is_some (node_at (below etc (codes "override.d")) w.nodes))
    raise_if there os_error
    set h (below etc (codes "override.d")) (dir h.euid 0o750)
    set h (below etc (codes "override.d")) (dir 0 0o750)
    atomic h (below etc (codes "htpasswd")) [] 0o640 0 gid

  unfoldable pub put_units : Location → Fields → List (List ℕ) → Do Fields
  put_units root m [] = pure m
  put_units root m (name ∷ names) = do
    there ← look (λ w. is_some (stat w.nodes (unit_file name)))
    if there then backup_file h (unit_file name) >> pure tt else pure tt
    content ← read (below (below root (codes "systemd")) name)
    atomic h (unit_file name) content 0o644 0 0
    written ← read (unit_file name)
    noted ← from (with_unit name (h.sha256 written) m)
    put_units root noted names

  -- What comes before the copy: the account, its group's number, and the directories.
  unfoldable pub prepare : (initial : Bool) → Do ℕ
  prepare initial = do
    ensure_stopped h units
    if initial then add_account else pure tt
    gid ← from (group h.group_id)
    owned_dir h true base
    owned_dir h true etc
    owned_dir h true state
    no_symlink releases
    there ← look (λ w. node_at releases w.nodes)
    make_releases there
    pure gid

  -- What `--apply` adds.
  unfoldable pub install_on : Location → List ℕ → (initial : Bool) → Fields → Do (Unit {0})
  install_on root name initial m = do
    gid ← prepare initial
    copy_tree root (below releases name)
    if initial then first_configs root gid else pure tt
    noted ← put_units root m units
    switch_release h name noted
    run h (codes "systemctl" ∷ codes "daemon-reload" ∷ [])

  -- What follows the tests of the stage, by whether the tool has been installed before.
  unfoldable pub install_from : Location → List ℕ → (apply there : Bool) → Do (Unit {0})
  install_from root name apply there = do
    m ← (if there then read_manifest h else pure first_manifest)
    owned_if etc
    owned_if state
    unit_conflicts h m units
    taken ← look (λ w.
        is_some (stat w.nodes (below releases name))
        || is_link (lstat w.nodes (below releases name)))
    raise_if taken exists
    if apply then install_on root name (not there) m else pure tt

  unfoldable pub install_stage : Location → List ℕ → (apply : Bool) → Do (Unit {0})
  install_stage root name apply =
      look (λ w. is_some (stat w.nodes base)) >>= λ there. install_from root name apply there

  unfoldable pub install : (absolute : Bool) → Location → List ℕ → (apply : Bool) → Do (Unit {0})
  install absolute l name apply = do
    root ← check_stage h absolute l
    raise_if (not (is_release name)) bad_release
    install_stage root name apply
