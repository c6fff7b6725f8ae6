-- ===== src/Admin/Release/Moves.antt =====
-- The releases that `rollback` of tools/admin.py shows: the link `current` and the names in install.json.
use nanopc_t6_kvm.Base.{
  ℕ, ◌≡◌, inl, inr, refl, sym, ap, ◌∙◌, Bool, true, false, ◌||◌, not, List, Option, some, ◌==◌,
  if◌then◌else◌, Bool-cases, list_eq, list_eq_iff, ok, ok-injective,
}
use nanopc_t6_kvm.Broker.{codes}
use nanopc_t6_kvm.Endpoint.{is_some}
use nanopc_t6_kvm.Value.{Value, Fields, end, field, get, obj, str}
use nanopc_t6_kvm.Admin.{Location, same, Node, file, node_at, stat}
use nanopc_t6_kvm.Admin.Files.{same_refl}
use nanopc_t6_kvm.Admin.Call.{
  World, Host, foreign, pending, bad_manifest, pure, look, raise_if, set,
}
use nanopc_t6_kvm.Admin.Call.Reads.{ended, read-ok, Reads-raise_if, bind-ok}
use nanopc_t6_kvm.Admin.Checks.{
  base, project, no_symlink, owned_dir, read_object, of_project, new_name, owned_file, atomic,
  read_manifest, install_json, resolve_release,
}
use nanopc_t6_kvm.Admin.Checks.Leaves.{atomic-Spares}
use nanopc_t6_kvm.Admin.Checks.Returned.{
  no_symlink-Reads, owned_dir-Reads, read_object-Reads, no_symlink-ok, stat-plain, IsFile,
  read_object-ok, rename-put, atomic-ok,
}
use nanopc_t6_kvm.Admin.Release.{
  current, is_foreign, set_field, get_or_null, updated, pending_link, release_link, set_current,
  save_manifest, switch_release,
}

-- What was printed is read back.
abbrev pub Prints : Host → Type 0
Prints h = (v : Value) → h.json.loads (h.print v) ≡ some v

-- `current` leads to the release, and install.json has this name and the previous value.
pub record Shows (h : Host) (w : World) (name : List ℕ) (previous : Value) : Type 0 where
  pub linked : node_at current w.nodes ≡ some (release_link name)
  pub manifest : Fields
  pub saved : IsFile (node_at install_json w.nodes) (h.print (obj manifest))
  pub now : get (codes "current") manifest ≡ some (str name)
  pub last : get (codes "previous") manifest ≡ some previous

text_self : (s : List ℕ) → list_eq s s ≡ true
text_self s = (list_eq_iff s s).1 refl

get-set_field :
    (j k : List ℕ) (v : Value) (m : Fields)
    → get k (set_field j v m) ≡ (if list_eq k j then some v else get k m)
get-set_field j k v end = refl
get-set_field j k v (field i u m) = elim (Bool-cases (list_eq j i)) [
  | inl here ↦ elim (Bool-cases (list_eq k i)) [
    | inl asked ↦ rw (here, (list_eq_iff j i).0 here, asked) refl
    | inr not_asked ↦ rw (here, (list_eq_iff j i).0 here, not_asked) refl
  ]
  | inr other ↦ elim (Bool-cases (list_eq k j)) [
    | inl asked ↦
        let gone : list_eq k i ≡ false = rw ((list_eq_iff k j).0 asked) other in
        rw (other, gone, get-set_field j k v m, asked) refl
    | inr not_asked ↦ elim (Bool-cases (list_eq k i)) [
      | inl found ↦ rw (other, not_asked, found) refl
      | inr missed ↦ rw (other, not_asked, missed, get-set_field j k v m, not_asked) refl
    ]
  ]
]

updated-current :
    (name : List ℕ) (m : Fields) → get (codes "current") (updated name m) ≡ some (str name)
updated-current name m =
    rw
      (
        get-set_field (codes "previous") (codes "current") (get_or_null (codes "current") m)
            (set_field (codes "current") (str name) (set_field (codes "project") (str project) m)),
        get-set_field (codes "current") (codes "current") (str name)
            (set_field (codes "project") (str project) m),
      )
      refl

updated-previous :
    (name : List ℕ) (m : Fields)
    → get (codes "previous") (updated name m) ≡ some (get_or_null (codes "current") m)
updated-previous name m =
    get-set_field (codes "previous") (codes "previous") (get_or_null (codes "current") m)
      (set_field (codes "current") (str name) (set_field (codes "project") (str project) m))

owned-IsFile :
    (h : Host) (content : List ℕ) (mode uid gid : ℕ)
    → IsFile (some (owned_file h content mode uid gid)) content
owned-IsFile h content mode uid gid = elim (Bool-cases (h.euid == 0)) [
  | inl root ↦ rw root (uid, gid, mode, refl)
  | inr user ↦ rw user (h.euid, h.egid, mode, refl)
]

set_current-linked :
    (h : Host) (name : List ℕ) (w : World)
    → (set_current h name w).1 ≡ ok tt
    → node_at current (set_current h name w).0.nodes ≡ some (release_link name)
unfolding set_current
set_current-linked h name w e =
    let (there, _, e1) =
      bind-ok (look (λ w. is_some (node_at (pending_link h) w.nodes))) _ w (ended _ e) in
    let (_, _, e2) = bind-ok (raise_if there pending) _ _ e1 in
    let (_, _, e3) = bind-ok (set h (pending_link h) (release_link name)) _ _ e2 in
    rename-put h (pending_link h) current (release_link name) _ e3

-- What a write of the manifest does not leave as it is.
abbrev at_manifest : Host → Location → Bool
at_manifest h l = same l install_json || same l (new_name h install_json)

-- The last two parts of a switch.
switched-Shows :
    (h : Host) (name : List ℕ) (m : Fields) (w : World) {v : World}
    → (set_current h name w).1 ≡ ok tt
    → atomic h install_json (h.print (obj (updated name m))) 0o600 0 0 (set_current h name w).0
      ≡ (v, ok tt)
    → Shows h v name (get_or_null (codes "current") m)
switched-Shows h name m w {v} moved e =
    let text = h.print (obj (updated name m)) in
    let kept =
      (atomic-Spares {own = at_manifest h} h install_json text 0o600 0 0
          (same_refl (new_name h install_json)) refl).at
        current refl (set_current h name w).0 in
    let here = ap (λ r. node_at current r.0.nodes) (sym e) in
    record {
      linked = here ∙ kept ∙ set_current-linked h name w moved;
      manifest = updated name m;
      saved =
          rw (atomic-ok h install_json text 0o600 0 0 (set_current h name w).0 refl e)
            (owned-IsFile h text 0o600 0 0);
      now = updated-current name m;
      last = updated-previous name m;
    }

-- A switch that has returned shows the release, and the one before as the previous.
pub switch_release-Shows :
    (h : Host) (name : List ℕ) (m : Fields) (w : World) {v : World}
    → switch_release h name m w ≡ (v, ok tt)
    → Shows h v name (get_or_null (codes "current") m)
unfolding switch_release
switch_release-Shows h name m w e =
    let (_, _, e1) = bind-ok (resolve_release h name) _ w e in
    let (other, _, e2) = bind-ok (look (λ w. is_foreign w.nodes)) _ _ e1 in
    let (_, _, e3) = bind-ok (raise_if other foreign) _ _ e2 in
    let (_, _, e4) = bind-ok (save_manifest h) _ _ e3 in
    let (_, moved, e5) = bind-ok (set_current h name) _ _ e4 in switched-Shows h name m _ moved e5

-- The manifest that is read is the one that was written.
pub read_manifest-Shows :
    (h : Host) (w : World) {name : List ℕ} {previous : Value} {m : Fields}
    → Prints h
    → (s : Shows h w name previous) → (read_manifest h w).1 ≡ ok m
    → m ≡ s.manifest
unfolding read_manifest pure
read_manifest-Shows h w {m = m} prints s e =
    let (_, _, e1) = read-ok (owned_dir h false base) _ w (owned_dir-Reads h base) e in
    let (_, direct, e2) =
      read-ok (no_symlink install_json) _ w (no_symlink-Reads install_json) e1 in
    let (r, got, e3) =
      read-ok (read_object h install_json) _ w (read_object-Reads h install_json) e2 in
    let (_, _, e4) =
      read-ok (raise_if (not (of_project r)) bad_manifest) (λ _. pure r) w (Reads-raise_if _ _)
        e3 in
    let (content, there, parsed) = read_object-ok h install_json w got in
    let plain =
      stat-plain w.nodes install_json (no_symlink-ok install_json w direct)
        (refl, (refl, (refl, tt))) in
    same_manifest (stat w.nodes install_json) content r plain there parsed (last_result e4)
  where
    last_result : {r : Fields} → (pure r w).1 ≡ ok m → r ≡ m
    last_result k = ok-injective k

    same_manifest :
        (n : Option Node) (content : List ℕ) (r : Fields)
        → n ≡ node_at install_json w.nodes
        → IsFile n content
        → h.json.loads content ≡ some (obj r)
        → r ≡ m
        → m ≡ s.manifest
    same_manifest n content r plain (uid, gid, mode, there) parsed given =
        let (uid', gid', mode', saved) = s.saved in
        let files : some (file content uid gid mode)
            ≡ some (file (h.print (obj s.manifest)) uid' gid' mode') =
          sym there ∙ plain ∙ saved in
        let text : content ≡ h.print (obj s.manifest) = cc in
        let back : some (obj r) ≡ some (obj s.manifest) =
          sym parsed ∙ ap h.json.loads text ∙ prints (obj s.manifest) in
        let last : r ≡ s.manifest = cc in sym given ∙ last
