-- ===== src/Gadget.antt =====
-- tools/gadget.py: the USB gadget that the tool makes and takes away. What stands in the file system is
-- a record, and what the tool does there is the list of its calls.
pub mod Start
pub mod Own
pub mod Removed
pub mod Effects
pub mod Gone
pub mod Made
pub mod Started
use nanopc_t6_kvm.Base.{
  ℕ, ◌*◌, Bool, true, false, ◌&&◌, ◌||◌, not, List, [], ◌∷◌, ◌++◌, Option, none, some, ◌==◌,
  if◌then◌else◌, list_eq, Result, ok, err, ◌>>◌, raise_if,
}
use nanopc_t6_kvm.Base.Texts.{strip}
use nanopc_t6_kvm.Broker.{codes}
use nanopc_t6_kvm.Endpoint.{is_some}
use nanopc_t6_kvm.Config.{is_text}
use nanopc_t6_kvm.Panel.Backups.{member}
use nanopc_t6_kvm.Panel.Update.{is_empty}
use nanopc_t6_kvm.Value.{
  Value, Fields, Items, Json, get, ℤ, pos, obj, arr, no_items, item, int, float, boolean,
}

-- An entry of the profile's directory; `target` is where a symbolic link leads.
pub record Link : Type 0 where
  pub name : List ℕ
  pub target : Option (List ℕ)

-- /sys/kernel/config/usb_gadget/t6-kvm: the names in `functions` and `configs`, the text of the serial
-- number, and the entries of configs/c.1, where these exist; `identity` is `st_dev` and `st_ino`.
pub record Tree : Type 0 where
  pub identity : ℕ × ℕ
  pub functions : Option (List (List ℕ))
  pub configs : Option (List (List ℕ))
  pub serial : Option (List ℕ)
  pub profile : Option (List Link)
  pub profile_strings : Bool
  pub strings : Bool

-- What `cleanup` finds: the tree, the text of owner.json, and whether that is behind a symbolic link.
pub record Site : Type 0 where
  pub boot_id : List ℕ
  pub owner_linked : Bool
  pub owner : Option (List ℕ)
  pub tree : Option Tree

pub data GadgetError : Type 0 where
  symlink os_error bad_owner mismatch inode_changed : GadgetError
  unknown_functions unknown_configuration serial_changed unexpected_link unknown_link : GadgetError
  not_mounted existing_gadget existing_nodes udc_in_use still_running existing_work : GadgetError
  unexpected_nodes no_device no_group : GadgetError

-- The calls that change something: below the gadget by the path from there.
pub data Action : Type 0 where
  write_udc rmdir_gadget unlink_owner rmdir_run : Action
  unlink rmdir : List ℕ → Action

abbrev pub gadget_path : List ℕ
gadget_path = codes "/sys/kernel/config/usb_gadget/t6-kvm/"

-- A number of Python that equals `n`.
abbrev pub equals : ℕ → Value → Bool
equals n (int (pos k)) = k == n
equals n (float (pos x)) = x == n * 1000000
equals n (boolean true) = n == 1
equals n (boolean false) = n == 0
equals n _ = false

abbrev pub is_identity : ℕ × ℕ → Option Value → Bool
is_identity (dev, ino) (some (arr (item a (item b no_items)))) = equals dev a && equals ino b
is_identity i _ = false

abbrev pub has_text : List ℕ → Option Value → Bool
has_text t none = false
has_text t (some v) = is_text t v

abbrev pub Check : Type 0
Check = Result GadgetError (Unit {0})

abbrev pub check_inode : Fields → Option Tree → Check
check_inode r none = ok tt
check_inode r (some t) =
    raise_if (not (is_identity t.identity (get (codes "gadget_identity") r))) inode_changed

abbrev pub check_record : Site → Option Value → Check
check_record s (some (obj r)) =
    raise_if
      (not (has_text (codes "t6-kvm") (get (codes "project") r))
        || not (has_text s.boot_id (get (codes "boot_id") r)))
      mismatch
    >> check_inode r s.tree
check_record s _ = err bad_owner

abbrev pub check_owner : Json → Site → Option (List ℕ) → Check
check_owner json s none = err os_error
check_owner json s (some text) = check_record s (json.loads text)

unfoldable pub validate_owner : Json → Site → Check
validate_owner json s = raise_if s.owner_linked symlink >> check_owner json s s.owner

-- `{...}-known`, as a test
abbrev pub has_unknown : List (List ℕ) → List (List ℕ) → Bool
has_unknown known [] = false
has_unknown known (n ∷ ns) = not (member known n) || has_unknown known ns

abbrev pub other_names : List (List ℕ) → Option (List (List ℕ)) → Bool
other_names known none = false
other_names known (some ns) = has_unknown known ns

abbrev pub hids : List (List ℕ)
hids = codes "hid.usb0" ∷ codes "hid.usb1" ∷ []

abbrev pub other_serial : Option (List ℕ) → Bool
other_serial none = false
other_serial (some text) =
    not (is_empty (strip text)) && not (list_eq (strip text) (codes "T6KVM001"))

abbrev pub check_tree : Tree → Check
check_tree t =
    raise_if (other_names hids t.functions) unknown_functions
    >> (raise_if (other_names (codes "c.1" ∷ []) t.configs) unknown_configuration
        >> raise_if (other_serial t.serial) serial_changed)

unfoldable pub allowed_tree : Option Tree → Check
allowed_tree none = ok tt
allowed_tree (some t) = check_tree t

-- `link.resolve()==GADGET/"functions"/name`
abbrev pub leads_to : List ℕ → List ℕ → Bool
leads_to target name = list_eq target (gadget_path ++ (codes "functions/" ++ name))

abbrev pub is_unexpected : Link → Option (List ℕ) → Bool
is_unexpected l none = false
is_unexpected l (some target) = not (member hids l.name) || not (leads_to target l.name)

abbrev pub some_unexpected : List Link → Bool
some_unexpected [] = false
some_unexpected (l ∷ ls) = is_unexpected l l.target || some_unexpected ls

abbrev pub check_profile : Option (List Link) → Check
check_profile none = ok tt
check_profile (some ls) = raise_if (some_unexpected ls) unexpected_link

abbrev pub check_links : Option Tree → Check
check_links none = ok tt
check_links (some t) = check_profile t.profile

-- Everything that `cleanup` tests before its first call.
unfoldable pub check_site : Json → Site → Check
check_site json s = validate_owner json s >> (allowed_tree s.tree >> check_links s.tree)

-- A call, or an exception of the tool's own.
pub data Step (A : Type 0) : Type 0 where
  call : A → Step A
  stop : GadgetError → Step A

module _ {A : Type 0} where
  abbrev pub behind : A → List A × Check → List A × Check
  behind a (calls, result) = (a ∷ calls, result)

  -- The calls that are made, the one that fails included, and how it ends.
  abbrev pub perform : (fails : A → Bool) → List (Step A) → List A × Check
  perform fails [] = ([], ok tt)
  perform fails (stop e ∷ steps) = ([], err e)
  perform fails (call a ∷ steps) =
      let rest = perform fails steps in if fails a then (a ∷ [], err os_error) else behind a rest

-- `p.is_symlink()`, and where it leads to.
abbrev pub link_at : List ℕ → List Link → Option (List ℕ)
link_at name [] = none
link_at name (l ∷ ls) = let rest = link_at name ls in if list_eq l.name name then l.target else rest

abbrev pub link_steps : List ℕ → Option (List ℕ) → List (Step Action)
link_steps name none = []
link_steps name (some target) =
    (if leads_to target name
      then call (unlink (codes "configs/c.1/" ++ name))
      else stop unknown_link)
    ∷ []

abbrev pub links_of : Tree → List Link
links_of t = elim t.profile [ none ↦ [] | some ls ↦ ls ]

-- `if p.exists(): p.rmdir()`
abbrev pub dir_steps : Bool → List ℕ → List (Step Action)
dir_steps there rel = if there then call (rmdir rel) ∷ [] else []

abbrev pub has_function : List ℕ → Option (List (List ℕ)) → Bool
has_function name none = false
has_function name (some ns) = member ns name

abbrev pub dirs : Tree → List (Step Action)
dirs t =
    dir_steps t.profile_strings (codes "configs/c.1/strings/0x409")
    ++ (dir_steps (is_some t.profile) (codes "configs/c.1")
        ++ (dir_steps (has_function (codes "hid.usb1") t.functions) (codes "functions/hid.usb1")
            ++ (dir_steps (has_function (codes "hid.usb0") t.functions) (codes "functions/hid.usb0")
                ++ (dir_steps t.strings (codes "strings/0x409") ++ []))))

abbrev pub tree_steps : Option Tree → List (Step Action)
tree_steps none = []
tree_steps (some t) =
    call write_udc
    ∷ (link_steps (codes "hid.usb0") (link_at (codes "hid.usb0") (links_of t))
        ++ (link_steps (codes "hid.usb1") (link_at (codes "hid.usb1") (links_of t))
            ++ (dirs t ++ (call rmdir_gadget ∷ []))))

-- Behind the removal of owner.json, where an `OSError` is suppressed.
abbrev pub finish : List Action × Check → List Action × Check
finish (calls, err e) = (calls, err e)
finish (calls, ok _) = (calls ++ (rmdir_run ∷ []), ok tt)

abbrev pub remove : (Action → Bool) → Site → Check → List Action × Check
remove fails s (err e) = ([], err e)
remove fails s (ok _) = finish (perform fails (tree_steps s.tree ++ (call unlink_owner ∷ [])))

unfoldable pub cleanup : Json → (Action → Bool) → Site → List Action × Check
cleanup json fails s = remove fails s (check_site json s)
