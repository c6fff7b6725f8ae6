-- ===== src/Admin/Backup.antt =====
-- `backup_file` and `restore` of tools/admin.py.
pub mod Kept
pub mod Restored
use nanopc_t6_kvm.Base.{
  ℕ, ◌-◌, ◌%◌, Bool, false, ◌&&◌, ◌||◌, not, List, [], ◌∷◌, ◌++◌, Option, none, some, ltb, ◌==◌,
  if◌then◌else◌, length, take, list_eq, Result, ok, err,
}
use nanopc_t6_kvm.Base.Texts.{split, join, strip_prefix}
use nanopc_t6_kvm.Base.Decimal.{decimal}
use nanopc_t6_kvm.Broker.{codes}
use nanopc_t6_kvm.Gadget.{has_text}
use nanopc_t6_kvm.Endpoint.{is_some}
use nanopc_t6_kvm.Panel.Backups.{text_leb}
use nanopc_t6_kvm.Value.{Value, Fields, end, field, get, obj, str, int, pos}
use nanopc_t6_kvm.Admin.{Location, same, Node, dir, file, link, special, Nodes, node_at, stat}
use nanopc_t6_kvm.Admin.Call.{
  World, Host, AdminError, unsafe, not_regular, no_argument, foreign, bad_json, no_object,
  key_error, os_error, Do, pure, raise, look, from, raise_if, ◌>>=◌, ◌>>◌, set, unset,
}
use nanopc_t6_kvm.Admin.Checks.{
  etc, backups, project, below, parent, no_symlink, atomic, owned_dir, as_object, read_object,
  of_project, units, ensure_stopped, checked_config_path,
}
use mathlib.Core.List.{reverse}

-- `str(path)` of a path from the root on.
abbrev pub path_text : Location → List ℕ
path_text l = b'/' ∷ join b'/' l

abbrev pub drop_dots : Location → Location
drop_dots [] = []
drop_dots (n ∷ ns) =
    let rest = drop_dots ns in if list_eq n [] || list_eq n (b'.' ∷ []) then rest else n ∷ rest

-- `Path(text)`, and whether it is absolute. Two slashes in front are a root of their own, below which nothing
-- is accepted.
abbrev pub path_of : List ℕ → Bool × Location
path_of [] = (false, [])
path_of (c ∷ []) = (c == b'/', drop_dots (split b'/' (c ∷ [])))
path_of (c ∷ d ∷ []) = (c == b'/' && not (d == b'/'), drop_dots (split b'/' (c ∷ d ∷ [])))
path_of (c ∷ d ∷ e ∷ rest) =
    (c == b'/' && (not (d == b'/') || e == b'/'), drop_dots (split b'/' (c ∷ d ∷ e ∷ rest)))

-- A regular file as `stat` and `read_bytes` give it.
pub record Regular : Type 0 where
  pub content : List ℕ
  pub uid : ℕ
  pub gid : ℕ
  pub mode : ℕ

abbrev pub regular : Option Node → Result AdminError Regular
regular (some (file content uid gid mode)) =
    ok (record { content = content; uid = uid; gid = gid; mode = mode })
regular n = err not_regular

-- Bits 0 to 5, `mode&0o077`.
abbrev pub is_private : ℕ → Option Node → Bool
is_private euid (some (dir uid mode)) = uid == euid && mode % 64 == 0
is_private euid n = false

-- `mkdir(exist_ok=True)` leaves a directory that is there, and raises at anything else.
abbrev pub make_root : Host → Option Node → Do (Unit {0})
make_root h none = set h backups (dir h.euid 0o700)
make_root h (some (dir uid mode)) = pure tt
make_root h (some n) = raise os_error

abbrev pub entry_name : Location → Location → Option (List ℕ)
entry_name [] (n ∷ []) = some n
entry_name (r ∷ rs) (n ∷ ns) = if list_eq r n then entry_name rs ns else none
entry_name r l = none

-- The name is matched by `t6-kvm.{key}.*.json`.
abbrev pub is_record_name : List ℕ → List ℕ → Bool
is_record_name key name = elim (strip_prefix (codes "t6-kvm." ++ (key ++ codes ".")) name) [
  | none ↦ false
  | some rest ↦ is_some (strip_prefix (reverse (codes ".json")) (reverse rest))
]

abbrev pub has_name : List ℕ → Option (List ℕ) → Bool
has_name key none = false
has_name key (some name) = is_record_name key name

-- A record that is the tool's own: its time and where it is.
abbrev pub Owned : Type 0
Owned = ℕ × Location

-- What the loop over the records makes of a file: one of its own, one to leave, or an exception that it does
-- not catch. A time that is no whole number cannot be compared with the others.
abbrev pub own_record : Location → Location → Fields → Result AdminError (Option Owned)
own_record source l r =
    if has_text project (get (codes "project") r)
      && has_text (path_text source) (get (codes "path") r)
    then elim (get (codes "created_ns") r) [
      | none ↦ ok none
      | some (int (pos n)) ↦ ok (some (n, l))
      | some v ↦ err no_object
    ]
    else ok none

abbrev pub read_record : Host → Location → Location → Node → Result AdminError (Option Owned)
read_record h source l (file content uid gid mode) = elim (h.json.loads content) [
  | none ↦ ok none
  | some (obj r) ↦ own_record source l r
  | some v ↦ err no_object
]
read_record h source l n = ok none

abbrev pub add_record :
    Result AdminError (Option Owned)
    → Result AdminError (List Owned)
    → Result AdminError (List Owned)
add_record (err e) rest = err e
add_record (ok none) rest = rest
add_record (ok (some o)) (err e) = err e
add_record (ok (some o)) (ok os) = ok (o ∷ os)

abbrev pub collect : Host → (key : List ℕ) → Location → Nodes → Result AdminError (List Owned)
collect h key source [] = ok []
collect h key source ((l, n) ∷ ns) =
    let rest = collect h key source ns in
    if has_name key (entry_name backups l) then add_record (read_record h source l n) rest else rest

abbrev pub before : Owned → Owned → Bool
before (n, k) (m, l) = ltb n m || (n == m && text_leb (path_text k) (path_text l))

abbrev pub insert : Owned → List Owned → List Owned
insert o [] = o ∷ []
insert o (p ∷ ps) = let rest = insert o ps in if before o p then o ∷ p ∷ ps else p ∷ rest

abbrev pub sorted : List Owned → List Owned
sorted [] = []
sorted (o ∷ os) = insert o (sorted os)

-- `sorted(owned)[:-2]`
abbrev pub outdated : List Owned → List Owned
outdated os = take (length os - 2) (sorted os)

abbrev pub remove_all : Host → List Owned → Do (Unit {0})
remove_all h [] = pure tt
remove_all h ((n, l) ∷ os) = unset h l >> remove_all h os

abbrev pub key_of : Host → Location → List ℕ
key_of h l = take 20 (h.sha256 (path_text l))

abbrev pub record_of : Host → Location → Regular → ℕ → Fields
record_of h l f now = field (codes "project") (str project) (
    field (codes "path") (str (path_text l)) (
      field (codes "created_ns") (int (pos now)) (
        field (codes "uid") (int (pos f.uid)) (
          field (codes "gid") (int (pos f.gid)) (
            field (codes "mode") (int (pos (f.mode % 0o10000)))
              (field (codes "data") (str (h.encode64 f.content)) end))))))

abbrev pub record_name : Host → Location → ℕ → Location
record_name h l now =
    below backups (codes "t6-kvm." ++ (key_of h l ++ (codes "." ++ (decimal now ++ codes ".json"))))

-- `r[key]` as a text and as a number; the wrong type is a TypeError.
abbrev pub text_at : List ℕ → Fields → Result AdminError (List ℕ)
text_at key r = elim (get key r) [
  | none ↦ err key_error
  | some (str s) ↦ ok s
  | some v ↦ err no_object
]

abbrev pub number_at : List ℕ → Fields → Result AdminError ℕ
number_at key r = elim (get key r) [
  | none ↦ err key_error
  | some (int (pos n)) ↦ ok n
  | some v ↦ err no_object
]

abbrev pub decoded : Option (List ℕ) → Result AdminError (List ℕ)
decoded none = err bad_json
decoded (some bytes) = ok bytes

module _ (h : Host) where
  unfoldable pub rotate : Location → Do (Unit {0})
  rotate l = do
    owned ← look (λ w. collect h (key_of h l) l w.nodes)
    os ← from owned
    remove_all h (outdated os)

  unfoldable pub backup_file : Location → Do Location
  backup_file l = do
    no_symlink l
    no_symlink backups
    found ← look (λ w. regular (stat w.nodes l))
    f ← from found
    root ← look (λ w. stat w.nodes backups)
    make_root h root
    closed ← look (λ w. is_private h.euid (stat w.nodes backups))
    raise_if (not closed) unsafe
    now ← look (λ w. h.time_ns w.made)
    atomic h (record_name h l now) (h.print (obj (record_of h l f now))) 0o600 h.euid h.egid
    rotate l
    pure (record_name h l now)

  -- The writes of a restore.
  unfoldable pub put_back : Location → List ℕ → Fields → Do (Unit {0})
  put_back dest content r = do
    ensure_stopped h units
    backup_file dest
    mode ← from (number_at (codes "mode") r)
    uid ← from (number_at (codes "uid") r)
    gid ← from (number_at (codes "gid") r)
    atomic h dest content mode uid gid

  -- What follows the read of a record.
  unfoldable pub restore_record : Fields → (apply : Bool) → Do (Unit {0})
  restore_record r apply = do
    text ← from (text_at (codes "path") r)
    raise_if (not (of_project r)) foreign
    dest ← checked_config_path (path_of text).0 (path_of text).1
    coded ← from (text_at (codes "data") r)
    content ← from (decoded (h.decode64 coded))
    if apply then put_back dest content r else pure tt

  unfoldable pub restore : Option (Bool × Location) → (apply : Bool) → Do (Unit {0})
  restore none apply = owned_dir h false etc >> raise no_argument
  restore (some (absolute, l)) apply = do
    owned_dir h false etc
    raise_if (not absolute || not (same (parent l) backups)) no_argument
    no_symlink l
    r ← read_object h l
    restore_record r apply

  -- The operation `backup`.
  unfoldable pub backup : Option (Bool × Location) → (apply : Bool) → Do (Unit {0})
  backup none apply = owned_dir h false etc >> raise no_argument
  backup (some (absolute, l)) apply = do
    owned_dir h false etc
    checked_config_path absolute l
    if apply then backup_file l >> pure tt else pure tt
