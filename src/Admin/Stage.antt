-- ===== src/Admin/Stage.antt =====
-- `check_stage` of tools/admin.py: the tests of a built release.
pub mod Checked
use nanopc_t6_kvm.Base.{
  ℕ, Bool, true, false, ◌&&◌, ◌||◌, not, List, [], ◌∷◌, ◌++◌, Option, none, some, ◌==◌,
  if◌then◌else◌, take, list_eq, Result, ok, err,
}
use nanopc_t6_kvm.Base.Texts.{split, join}
use nanopc_t6_kvm.Broker.{codes}
use nanopc_t6_kvm.Endpoint.{is_some}
use nanopc_t6_kvm.Gadget.{has_text}
use nanopc_t6_kvm.Panel.Backups.{member}
use nanopc_t6_kvm.Value.{Value, Fields, end, field, get}
use nanopc_t6_kvm.Admin.{
  Location, same, Node, dir, file, link, special, Nodes, node_at, is_link, resolve, stat,
}
use nanopc_t6_kvm.Admin.Call.{
  World, Host, AdminError, bad_stage, os_error, Do, pure, raise, look, from, raise_if, ◌>>=◌, ◌>>◌,
}
use nanopc_t6_kvm.Admin.Checks.{
  place, below, parent, read, read_object, of_project, goes_up, stays_in,
}
use nanopc_t6_kvm.Admin.Backup.{drop_dots}
use mathlib.Core.List.{reverse}

-- What is behind the first location, of one below it.
abbrev pub rest_of : Location → Location → Option Location
rest_of [] [] = none
rest_of [] (n ∷ ns) = some (n ∷ ns)
rest_of (r ∷ rs) [] = none
rest_of (r ∷ rs) (n ∷ ns) = if list_eq r n then rest_of rs ns else none

-- The last name of a location, with the directory before it resolved.
abbrev pub in_parent : Location → Option Location → Location
in_parent l none = l
in_parent l (some up) = up ++ take 1 (reverse l)

-- `lstat`: the links on the way are followed, the last one is not.
abbrev pub lstat : Nodes → Location → Option Node
lstat ns l = node_at (in_parent l (resolve ns (parent l))) ns

-- `rglob("*")`: what is below the location, by the names behind it.
abbrev pub add_entry : Option Location → Node → List (Location × Node) → List (Location × Node)
add_entry none n es = es
add_entry (some rel) n es = (rel, n) ∷ es

abbrev pub entries : Location → Nodes → List (Location × Node)
entries root [] = []
entries root ((l, n) ∷ ns) = add_entry (rest_of root l) n (entries root ns)

abbrev pub begins_at_root : List ℕ → Bool
begins_at_root [] = false
begins_at_root (c ∷ cs) = c == b'/'

-- The location of a name in the list of digests.
abbrev pub listed : Location → List ℕ → Location
listed root rel = root ++ drop_dots (split b'/' rel)

abbrev pub is_bad_entry : Nodes → Location → List ℕ → Bool
is_bad_entry ns root rel =
    begins_at_root rel
    || (goes_up (drop_dots (split b'/' rel))
        || (is_link (lstat ns (listed root rel))
            || not (stays_in root (resolve ns (listed root rel)))))

abbrev pub last_name : Location → List ℕ
last_name [] = []
last_name (n ∷ []) = n
last_name (n ∷ m ∷ ms) = last_name (m ∷ ms)

abbrev pub unlisted : List (List ℕ)
unlisted = codes "build.log" ∷ codes "stage-sha256.json" ∷ []

-- A link stays in the stage, a file is in the list of digests.
abbrev pub is_good_entry : Nodes → Location → Fields → Location → Node → Bool
is_good_entry ns root sums rel (dir uid mode) = true
is_good_entry ns root sums rel (file content uid gid mode) =
    member unlisted (last_name rel) || is_some (get (join b'/' rel) sums)
is_good_entry ns root sums rel (link absolute target) = stays_in root (resolve ns (root ++ rel))
is_good_entry ns root sums rel special = false

abbrev pub all_good : Nodes → Location → Fields → List (Location × Node) → Bool
all_good ns root sums [] = true
all_good ns root sums ((rel, n) ∷ es) = is_good_entry ns root sums rel n && all_good ns root sums es

abbrev pub is_file : Option Node → Bool
is_file (some (file content uid gid mode)) = true
is_file n = false

abbrev pub all_files : Nodes → Location → List Location → Bool
all_files ns root [] = true
all_files ns root (l ∷ ls) = is_file (stat ns (root ++ l)) && all_files ns root ls

abbrev pub needed : List Location
needed =
    place "bin/t6-capture"
    ∷ place "bin/t6-kvmd"
    ∷ place "bin/t6-kvmd-vnc"
    ∷ place "venv/bin/python"
    ∷ []

abbrev pub kvmd_commit : List ℕ
kvmd_commit = codes "78ff181e95b14327831441d58f2f7f4cb2181cde"

abbrev pub is_approved : Fields → Bool
is_approved r = of_project r && has_text kvmd_commit (get (codes "kvmd_commit") r)

-- `resolve(strict=True)`
abbrev pub found_at : Nodes → Option Location → Result AdminError Location
found_at ns none = err os_error
found_at ns (some l) = if is_some (node_at l ns) then ok l else err os_error

module _ (h : Host) where
  unfoldable pub check_sum : Location → List ℕ → Value → Do (Unit {0})
  check_sum root rel expected = do
    bad ← look (λ w. is_bad_entry w.nodes root rel)
    raise_if bad bad_stage
    content ← read (listed root rel)
    raise_if (not (has_text (h.sha256 content) (some expected))) bad_stage

  unfoldable pub check_sums : Location → Fields → Do (Unit {0})
  check_sums root end = pure tt
  check_sums root (field rel expected sums) = check_sum root rel expected >> check_sums root sums

  unfoldable pub check_stage : (absolute : Bool) → Location → Do Location
  check_stage absolute l = do
    found ← look (λ w. found_at w.nodes (resolve w.nodes (if absolute then l else h.cwd ++ l)))
    root ← from found
    r ← read_object h (below root (codes "release.json"))
    raise_if (not (is_approved r)) bad_stage
    sums ← read_object h (below root (codes "stage-sha256.json"))
    check_sums root sums
    good ← look (λ w. all_good w.nodes root sums (entries root w.nodes))
    raise_if (not good) bad_stage
    complete ← look (λ w. all_files w.nodes root needed)
    raise_if (not complete) bad_stage
    pure root
