-- ===== src/Admin/Checks.antt =====
-- The parts that the operations of tools/admin.py share: the tests of paths, directories and names, and the
-- write of a file.
pub mod Leaves
pub mod Returned
use nanopc_t6_kvm.Base.{
  ℕ, Bool, true, false, ◌&&◌, ◌||◌, not, List, [], ◌∷◌, ◌++◌, Option, none, some, leb, ◌==◌,
  if◌then◌else◌, length, drop, list_eq, Result, ok, err,
}
use nanopc_t6_kvm.Base.Texts.{split, strip}
use nanopc_t6_kvm.Base.Decimal.{decimal}
use nanopc_t6_kvm.Broker.{codes}
use nanopc_t6_kvm.Gadget.{has_text}
use nanopc_t6_kvm.Endpoint.{is_some, others_write}
use nanopc_t6_kvm.Panel.Backups.{member}
use nanopc_t6_kvm.Panel.Update.{each_char}
use nanopc_t6_kvm.Value.{Value, Fields, get, obj}
use nanopc_t6_kvm.Admin.{
  Location, Node, dir, file, link, special, Nodes, node_at, within, is_link, resolve, stat,
}
use nanopc_t6_kvm.Admin.Call.{
  World, Host, AdminError, symlink, foreign, unsafe, missing, bad_path, running, bad_manifest,
  bad_release, bad_json, no_object, os_error, Do, pure, raise, look, from, raise_if, ◌>>=◌, ◌>>◌,
  set, unset, rename, finally,
}
use mathlib.Core.List.{reverse}
use Prim.Native.String.{String}

abbrev pub place : String → Location
place text = split b'/' (codes text)

abbrev pub base : Location
base = place "opt/t6-kvm"

abbrev pub etc : Location
etc = place "etc/t6-kvm"

abbrev pub state : Location
state = place "var/lib/t6-kvm"

abbrev pub backups : Location
backups = place "root/agent.backup"

abbrev pub project : List ℕ
project = codes "t6-kvm"

abbrev pub below : Location → List ℕ → Location
below l name = l ++ (name ∷ [])

abbrev pub parent : Location → Location
parent l = reverse (drop 1 (reverse l))

abbrev pub rename_last : (List ℕ → List ℕ) → Location → Location
rename_last f [] = []
rename_last f (n ∷ []) = f n ∷ []
rename_last f (n ∷ m ∷ ms) = n ∷ rename_last f (m ∷ ms)

-- A link among the location and its parents.
abbrev pub some_link : Nodes → Location → Location → Bool
some_link ns done [] = false
some_link ns done (name ∷ rest) =
    is_link (node_at (below done name) ns) || some_link ns (below done name) rest

unfoldable pub no_symlink : Location → Do (Unit {0})
no_symlink l = look (λ w. some_link w.nodes [] l) >>= λ linked. raise_if linked symlink

abbrev pub is_dir : Option Node → Bool
is_dir (some (dir uid mode)) = true
is_dir n = false

abbrev pub content_of : Option Node → Result AdminError (List ℕ)
content_of (some (file content uid gid mode)) = ok content
content_of n = err os_error

-- `path.read_text()`
unfoldable pub read : Location → Do (List ℕ)
read l = look (λ w. content_of (stat w.nodes l)) >>= from

abbrev pub marker : Location → Location
marker l = below l (codes ".t6-owned")

-- The tests of a directory that exists.
abbrev pub is_marked : Option Node → Bool
is_marked (some (file content uid gid mode)) = list_eq (strip content) project
is_marked n = false

abbrev pub is_unsafe : Option Node → Bool
is_unsafe (some (dir uid mode)) = not (uid == 0) || others_write mode
is_unsafe n = true

unfoldable pub check_owned : Location → Do (Unit {0})
check_owned l = do
  marked ← look (λ w. is_marked (stat w.nodes (marker l)))
  raise_if (not marked) foreign
  bad ← look (λ w. is_unsafe (stat w.nodes l))
  raise_if bad unsafe

-- `json.loads`, where the value has to be an object for the `get` that follows.
abbrev pub as_object : Option Value → Result AdminError Fields
as_object none = err bad_json
as_object (some (obj fields)) = ok fields
as_object (some v) = err no_object

abbrev pub of_project : Fields → Bool
of_project m = has_text project (get (codes "project") m)

abbrev pub install_json : Location
install_json = below base (codes "install.json")

abbrev pub is_letter : ℕ → Bool
is_letter c = leb b'A' c && leb c b'Z' || leb b'a' c && leb c b'z' || leb b'0' c && leb c b'9'

abbrev pub is_release_char : ℕ → Bool
is_release_char c = is_letter c || c == b'.' || c == b'_' || c == b'-'

-- `re.fullmatch("[A-Za-z0-9][A-Za-z0-9._-]{0,79}",name)`
abbrev pub is_release : List ℕ → Bool
is_release [] = false
is_release (c ∷ cs) = is_letter c && (leb (length cs) 79 && each_char is_release_char cs)

abbrev pub releases : Location
releases = below base (codes "releases")

abbrev pub dots : List (List ℕ)
dots = codes "." ∷ codes ".." ∷ []

abbrev pub units : List (List ℕ)
units = codes "t6-kvmd.service" ∷ codes "t6-kvmd-vnc.service" ∷ []

abbrev pub stopped : List (List ℕ)
stopped = codes "inactive" ∷ codes "failed" ∷ [] ∷ []

-- `".." in path.parts`
abbrev pub goes_up : Location → Bool
goes_up l = member l (codes "..")

abbrev pub stays_in : Location → Option Location → Bool
stays_in l none = false
stays_in l (some k) = within l k

unfoldable pub checked_config_path : (absolute : Bool) → Location → Do Location
checked_config_path absolute l = do
  raise_if (not absolute || goes_up l || not (within etc l)) bad_path
  no_symlink l
  inside ← look (λ w. stays_in etc (resolve w.nodes l))
  raise_if (not inside) bad_path
  pure l

module _ (h : Host) where
  abbrev pub new_name : Location → Location
  new_name = rename_last (λ name. name ++ (codes ".t6-new-" ++ decimal h.pid))

  -- The file as its owner is set: root may give it away.
  abbrev pub owned_file : List ℕ → (mode uid gid : ℕ) → Node
  owned_file content mode uid gid =
      if h.euid == 0 then file content uid gid mode else file content h.euid h.egid mode

  -- The `try` of `atomic`.
  abbrev pub write_new : Location → List ℕ → (mode uid gid : ℕ) → Do (Unit {0})
  write_new l content mode uid gid =
      set h (new_name l) (file content h.euid h.egid mode)
      >> ((if h.euid == 0 then set h (new_name l) (file content uid gid mode) else pure tt)
          >> rename h (new_name l) l (owned_file content mode uid gid))

  -- `O_EXCL` refuses a name that is there, also a link's.
  unfoldable pub atomic : Location → List ℕ → (mode uid gid : ℕ) → Do (Unit {0})
  atomic l content mode uid gid = do
    no_symlink l
    there ← look (λ w. is_some (node_at (new_name l) w.nodes))
    raise_if there os_error
    set h (new_name l) (file [] h.euid h.egid mode)
    finally (write_new l content mode uid gid) (unset h (new_name l))

  -- `mkdir`, `chown` and the marker.
  unfoldable pub make_owned : Location → Do (Unit {0})
  make_owned l = do
    up ← look (λ w. is_dir (stat w.nodes (parent l)))
    raise_if (not up) os_error
    set h l (dir h.euid 0o750)
    if h.euid == 0 then set h l (dir 0 0o750) else pure tt
    atomic (marker l) (project ++ (10 ∷ [])) 0o600 0 0

  unfoldable pub owned_dir : (create : Bool) → Location → Do (Unit {0})
  owned_dir create l = do
    no_symlink l
    there ← look (λ w. is_some (stat w.nodes l))
    if there then check_owned l else if create then make_owned l else raise missing

  unfoldable pub read_object : Location → Do Fields
  read_object l = read l >>= λ text. from (as_object (h.json.loads text))

  unfoldable pub read_manifest : Do Fields
  read_manifest = do
    owned_dir false base
    no_symlink install_json
    m ← read_object install_json
    raise_if (not (of_project m)) bad_manifest
    pure m

  unfoldable pub resolve_release : List ℕ → Do Location
  resolve_release name = do
    raise_if (not (is_release name) || member dots name) bad_release
    no_symlink (below releases name)
    m ← read_object (below (below releases name) (codes "release.json"))
    raise_if (not (of_project m)) foreign
    pure (below releases name)

  unfoldable pub ensure_stopped : List (List ℕ) → Do (Unit {0})
  ensure_stopped [] = pure tt
  ensure_stopped (u ∷ us) =
      raise_if (not (member stopped (strip (h.active u)))) running >> ensure_stopped us
