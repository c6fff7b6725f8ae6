-- ===== src/Admin/Checks/Returned.antt =====
-- What holds where the shared parts of tools/admin.py have returned.
use nanopc_t6_kvm.Base.{
  ℕ, zero, suc, ◌≡◌, refl, sym, ap, ◌∙◌, arith, Bool, true, false, List, [], ◌∷◌, ◌++◌, Option,
  none, some, ◌==◌, if◌then◌else◌, All, list_eq, Result, ok, err,
}
use mathlib.Core.List.{append-nil, append_assoc}
use nanopc_t6_kvm.Broker.{codes}
use nanopc_t6_kvm.Admin.{
  Location, same, Node, file, link, Nodes, node_at, put, delete, is_link, onward, walk, resolve_on,
  resolve, stat,
}
use nanopc_t6_kvm.Endpoint.{is_some}
use nanopc_t6_kvm.Value.{Value, Fields, obj}
use nanopc_t6_kvm.Admin.Files.{node_at-put, node_at-delete, same_refl}
use nanopc_t6_kvm.Admin.Call.{
  World, Host, AdminError, os_error, symlink, pure, look, from, raise_if, go_on, ◌>>=◌, set, unset,
  rename,
}
use nanopc_t6_kvm.Admin.Call.Reads.{
  ended, Reads, Reads-bind, Reads-raise_if, reads_rules, bind-ok, reads-ok, raise_if-ok, change-ok,
  finally-ok, Reads-look, Reads-from, Reads-pure,
}
use nanopc_t6_kvm.Admin.Checks.{
  below, some_link, no_symlink, content_of, read, new_name, owned_file, write_new, atomic,
  check_owned, owned_dir, as_object, read_object, read_manifest, resolve_release, ensure_stopped,
  checked_config_path,
}

pub no_symlink-Reads : (l : Location) → Reads (no_symlink l)
unfolding no_symlink
no_symlink-Reads l = search reads_rules

pub read-Reads : (l : Location) → Reads (read l)
unfolding read
read-Reads l = search reads_rules

pub check_owned-Reads : (l : Location) → Reads (check_owned l)
unfolding check_owned
check_owned-Reads l = search reads_rules depth 9

pub checked_config_path-Reads :
    (absolute : Bool) (l : Location) → Reads (checked_config_path absolute l)
unfolding checked_config_path
checked_config_path-Reads absolute l = search (reads_rules, no_symlink-Reads) depth 9

module _ (h : Host) where
  pub owned_dir-Reads : (l : Location) → Reads (owned_dir h false l)
  unfolding owned_dir
  owned_dir-Reads l = search (reads_rules, no_symlink-Reads, check_owned-Reads) depth 9

  pub read_object-Reads : (l : Location) → Reads (read_object h l)
  unfolding read_object
  read_object-Reads l = search (reads_rules, read-Reads)

  pub read_manifest-Reads : Reads (read_manifest h)
  unfolding read_manifest
  read_manifest-Reads =
      search (reads_rules, owned_dir-Reads, no_symlink-Reads, read_object-Reads) depth 9

  pub resolve_release-Reads : (name : List ℕ) → Reads (resolve_release h name)
  unfolding resolve_release
  resolve_release-Reads name = search (reads_rules, no_symlink-Reads, read_object-Reads) depth 9

  pub ensure_stopped-Reads : (us : List (List ℕ)) → Reads (ensure_stopped h us)
  unfolding ensure_stopped
  ensure_stopped-Reads [] = search reads_rules
  ensure_stopped-Reads (u ∷ us) = Reads-bind _ _ (Reads-raise_if _ _) (λ _. ensure_stopped-Reads us)

pub ruleset test_rules = (
  reads_rules, no_symlink-Reads, read-Reads, check_owned-Reads, owned_dir-Reads, read_object-Reads,
  read_manifest-Reads, resolve_release-Reads, ensure_stopped-Reads, checked_config_path-Reads,
)

pub no_symlink-ok :
    (l : Location) (w : World) {u : Unit {0}}
    → (no_symlink l w).1 ≡ ok u
    → some_link w.nodes [] l ≡ false
unfolding no_symlink ◌>>=◌ look raise_if
no_symlink-ok l w e = raise_if-ok (some_link w.nodes [] l) symlink w e

-- A path without `..`.
abbrev pub NoDots : Location → Type 0
NoDots = All (λ n. list_eq n (codes "..") ≡ false)

onward-plain :
    (restart : Location → Location → Option Location) (done rest : Location) (on : Option Location)
    (n : Option Node)
    → is_link n ≡ false
    → onward restart done rest on n ≡ on
onward-plain restart done rest on (some (link true target)) e = cc
onward-plain restart done rest on (some (link false target)) e = cc
onward-plain restart done rest on n e = refl

walk-plain :
    (restart : Location → Location → Option Location) (ns : Nodes) (done l : Location)
    → some_link ns done l ≡ false
    → NoDots l
    → walk restart ns done l ≡ some (done ++ l)
walk-plain restart ns done [] e d = ap some (sym (append-nil done))
walk-plain restart ns done (n ∷ l) e (d, ds) = rw d (
    onward-plain restart done l (walk restart ns (below done n) l) (node_at (below done n) ns)
      (ground arith)
    ∙ walk-plain restart ns (below done n) l (ground arith) ds
    ∙ ap some (append_assoc done (n ∷ []) l))

resolve_on-plain :
    (k : ℕ) (ns : Nodes) (done l : Location)
    → some_link ns done l ≡ false
    → NoDots l
    → resolve_on k ns done l ≡ some (done ++ l)
unfolding resolve_on
resolve_on-plain zero ns done l e d = walk-plain (λ a b. none) ns done l e d
resolve_on-plain (suc k) ns done l e d = walk-plain (resolve_on k ns) ns done l e d

pub resolve-plain :
    (ns : Nodes) (l : Location) → some_link ns [] l ≡ false → NoDots l → resolve ns l ≡ some l
unfolding resolve
resolve-plain ns l e d = resolve_on-plain 40 ns [] l e d

pub stat-plain :
    (ns : Nodes) (l : Location) → some_link ns [] l ≡ false → NoDots l → stat ns l ≡ node_at l ns
unfolding stat
stat-plain ns l e d = rw (resolve-plain ns l e d) refl

abbrev pub IsFile : Option Node → List ℕ → Type 0
IsFile n content = (uid : ℕ) × (gid : ℕ) × (mode : ℕ) × (n ≡ some (file content uid gid mode))

content_of-IsFile :
    (n : Option Node) {content : List ℕ} → content_of n ≡ ok content → IsFile n content
content_of-IsFile (some (file c uid gid mode)) {content} e =
    let same_content : c ≡ content = cc in (uid, gid, mode, rw same_content refl)
content_of-IsFile n e = cc

pub read-ok_lem :
    (l : Location) (w : World) {content : List ℕ}
    → (read l w).1 ≡ ok content
    → IsFile (stat w.nodes l) content
unfolding read ◌>>=◌ look from
read-ok_lem l w e = content_of-IsFile (stat w.nodes l) e

as_object-ok : (v : Option Value) {m : Fields} → as_object v ≡ ok m → v ≡ some (obj m)
as_object-ok none e = cc
as_object-ok (some (obj r)) {m} e = let q : r ≡ m = cc in rw q refl
as_object-ok (some v) e = cc

-- An object that was read is what the file's content parses to.
pub read_object-ok :
    (h : Host) (l : Location) (w : World) {m : Fields}
    → (read_object h l w).1 ≡ ok m
    → (content : List ℕ) × IsFile (stat w.nodes l) content × (h.json.loads content ≡ some (obj m))
unfolding read_object read ◌>>=◌
read_object-ok h l w {m} e = go (content_of (stat w.nodes l)) refl e
  where
    go :
        (r : Result AdminError (List ℕ))
        → content_of (stat w.nodes l) ≡ r
        → (go_on (from r w) (λ text. from (as_object (h.json.loads text)))).1 ≡ ok m
        → (content : List ℕ) × IsFile (stat w.nodes l) content
          × (h.json.loads content ≡ some (obj m))
    go (err x) k e = cc
    go (ok c) k e = (c, content_of-IsFile (stat w.nodes l) k, as_object-ok (h.json.loads c) e)

-- The name under which a file is written first is taken by the file that is in its place.
pub rename-put :
    (h : Host) (j l : Location) (n : Node) (w : World) {v : World}
    → rename h j l n w ≡ (v, ok tt)
    → node_at l v.nodes ≡ some n
unfolding rename
rename-put h j l n w {v} e =
    let made = change-ok h (λ w. record w { nodes = put l n (delete j w.nodes) }) w e in
    rw (made, node_at-put l l n (delete j w.nodes), same_refl l) refl

write_new-put :
    (h : Host) (l : Location) (content : List ℕ) (mode uid gid : ℕ) (w : World)
    → (write_new h l content mode uid gid w).1 ≡ ok tt
    → node_at l (write_new h l content mode uid gid w).0.nodes
      ≡ some (owned_file h content mode uid gid)
write_new-put h l content mode uid gid w e =
    let (_, _, e1) =
      bind-ok (set h (new_name h l) (file content h.euid h.egid mode)) _ w (ended _ e) in
    let (_, _, e2) =
      bind-ok (if h.euid == 0 then set h (new_name h l) (file content uid gid mode) else pure tt) _
        _ e1 in
    rename-put h (new_name h l) l (owned_file h content mode uid gid) _ e2

unset-other :
    (h : Host) (j l : Location) (w : World) {v : World}
    → same j l ≡ false
    → unset h j w ≡ (v, ok tt)
    → node_at l v.nodes ≡ node_at l w.nodes
unfolding unset
unset-other h j l w {v} apart e =
    let made = change-ok h (λ w. record w { nodes = delete j w.nodes }) w e in
    rw (made, node_at-delete j l w.nodes, apart) refl

-- The file that a write has put in place, where the name that it is written under is another one.
pub atomic-ok :
    (h : Host) (l : Location) (content : List ℕ) (mode uid gid : ℕ) (w : World) {v : World}
    → same (new_name h l) l ≡ false
    → atomic h l content mode uid gid w ≡ (v, ok tt)
    → node_at l v.nodes ≡ some (owned_file h content mode uid gid)
unfolding atomic
atomic-ok h l content mode uid gid w {v} apart e =
    let (_, _, e1) = bind-ok (no_symlink l) _ w e in
    let (there, _, e2) = bind-ok (look (λ w. is_some (node_at (new_name h l) w.nodes))) _ _ e1 in
    let (_, _, e3) = bind-ok (raise_if there os_error) _ _ e2 in
    let (_, _, e4) = bind-ok (set h (new_name h l) (file [] h.euid h.egid mode)) _ _ e3 in
    let (written, removed) =
      finally-ok (write_new h l content mode uid gid) (unset h (new_name h l)) _ e4 in
    unset-other h (new_name h l) l _ apart removed
    ∙ write_new-put h l content mode uid gid _ written
