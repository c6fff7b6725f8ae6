-- ===== src/Gadget/Own.antt =====
-- What the tests of `cleanup` in tools/gadget.py ask for: a gadget that is the tool's own.
use nanopc_t6_kvm.Base.{
  ℕ, ◌≡◌, inl, inr, refl, ap, arith, Bool, true, false, ◌||◌, not, List, [], ◌∷◌, ◌++◌, Option,
  none, some, Bool-cases, All, list_eq_iff, ok, ◌>>◌, raise_if, >>=-eq-ok, raise_if-eq-ok,
  not-eq-false,
}
use nanopc_t6_kvm.Broker.{codes}
use nanopc_t6_kvm.Config.{is_text}
use nanopc_t6_kvm.Panel.Backups.{member}
use nanopc_t6_kvm.Value.{Value, Fields, Json, get, obj, str}
use nanopc_t6_kvm.Gadget.{
  Link, Tree, Site, GadgetError, symlink, unknown_functions, unknown_configuration, serial_changed,
  mismatch, gadget_path, is_identity, has_text, check_inode, check_record, check_owner,
  validate_owner, has_unknown, other_names, hids, other_serial, allowed_tree, leads_to,
  is_unexpected, some_unexpected, check_profile, check_links, check_site, links_of,
}

-- A symbolic link in the profile leads to the gadget's function of its name.
abbrev pub OwnLink : Link → Type 0
OwnLink l =
    (target : List ℕ)
    → l.target ≡ some target
    → (member hids l.name ≡ true) × (target ≡ gadget_path ++ (codes "functions/" ++ l.name))

abbrev pub Known : List (List ℕ) → Option (List (List ℕ)) → Type 0
Known known none = Unit
Known known (some ns) = All (λ n. member known n ≡ true) ns

-- The tree that the owner's record is of, with nothing in it that the tool did not make.
pub record IsOwnTree (r : Fields) (t : Tree) : Type 0 where
  pub inode : is_identity t.identity (get (codes "gadget_identity") r) ≡ true
  pub functions : Known hids t.functions
  pub configs : Known (codes "c.1" ∷ []) t.configs
  pub serial : other_serial t.serial ≡ false
  pub links : All OwnLink (links_of t)

abbrev pub IsOwnSite : Fields → Option Tree → Type 0
IsOwnSite r none = Unit
IsOwnSite r (some t) = IsOwnTree r t

-- owner.json is the tool's own and of this boot, and the gadget is the one that it was written for.
pub record IsOwn (json : Json) (s : Site) : Type 0 where
  pub direct : s.owner_linked ≡ false
  pub text : List ℕ
  pub there : s.owner ≡ some text
  pub fields : Fields
  pub parsed : json.loads text ≡ some (obj fields)
  pub project : get (codes "project") fields ≡ some (str (codes "t6-kvm"))
  pub boot : get (codes "boot_id") fields ≡ some (str s.boot_id)
  pub tree : IsOwnSite fields s.tree

is_text_str : (t : List ℕ) (v : Value) → is_text t v ≡ true → v ≡ str t
is_text_str t (str s) e = ap str ((list_eq_iff s t).0 e)
is_text_str t v e = cc

has_text-some : (t : List ℕ) (o : Option Value) → has_text t o ≡ true → o ≡ some (str t)
has_text-some t none e = cc
has_text-some t (some v) e = ap some (is_text_str t v e)

has_unknown-All :
    (known ns : List (List ℕ)) → has_unknown known ns ≡ false → All (λ n. member known n ≡ true) ns
has_unknown-All known [] e = tt
has_unknown-All known (n ∷ ns) e = (ground arith, has_unknown-All known ns (ground arith))

other_names-Known :
    (known : List (List ℕ)) (o : Option (List (List ℕ)))
    → other_names known o ≡ false
    → Known known o
other_names-Known known none e = tt
other_names-Known known (some ns) e = has_unknown-All known ns e

is_unexpected-OwnLink : (l : Link) → is_unexpected l l.target ≡ false → OwnLink l
is_unexpected-OwnLink l e target there =
    let q : is_unexpected l (some target) ≡ false = rw there at e in
    let own : leads_to target l.name ≡ true = ground arith in
    (ground arith, (list_eq_iff target (gadget_path ++ (codes "functions/" ++ l.name))).0 own)

some_unexpected-All : (ls : List Link) → some_unexpected ls ≡ false → All OwnLink ls
some_unexpected-All [] e = tt
some_unexpected-All (l ∷ ls) e =
    (is_unexpected-OwnLink l (ground arith), some_unexpected-All ls (ground arith))

raised_not : (b : Bool) (e : GadgetError) → raise_if b e ≡ ok tt → b ≡ false
raised_not true e h = cc
raised_not false e h = refl

check_profile-All :
    (ls : Option (List Link))
    → check_profile ls ≡ ok tt
    → some_unexpected (elim ls [ none ↦ [] | some xs ↦ xs ]) ≡ false
check_profile-All none e = refl
check_profile-All (some ls) e = elim (Bool-cases (some_unexpected ls)) [
  | inl bad ↦ let q = rw bad at e in cc
  | inr good ↦ good
]

check_inode-tree :
    (r : Fields) (o : Option Tree)
    → check_inode r o ≡ ok tt
    → allowed_tree o ≡ ok tt
    → check_links o ≡ ok tt
    → IsOwnSite r o
unfolding allowed_tree
check_inode-tree r none a b c = tt
check_inode-tree r (some t) a b c =
    let (funs, rest) =
      raise_if-eq-ok (other_names hids t.functions) unknown_functions
        (raise_if (other_names (codes "c.1" ∷ []) t.configs) unknown_configuration
          >> raise_if (other_serial t.serial) serial_changed)
        b in
    let (confs, rest') =
      raise_if-eq-ok (other_names (codes "c.1" ∷ []) t.configs) unknown_configuration
        (raise_if (other_serial t.serial) serial_changed) rest in
    record {
      inode = not-eq-false (raised_not _ _ a);
      functions = other_names-Known hids t.functions funs;
      configs = other_names-Known (codes "c.1" ∷ []) t.configs confs;
      serial = raised_not (other_serial t.serial) serial_changed rest';
      links = some_unexpected-All (links_of t) (check_profile-All t.profile c);
    }

check_record-IsOwn :
    (json : Json) (s : Site) (text : List ℕ) (v : Option Value)
    → s.owner_linked ≡ false
    → s.owner ≡ some text
    → json.loads text ≡ v
    → check_record s v ≡ ok tt
    → allowed_tree s.tree ≡ ok tt
    → check_links s.tree ≡ ok tt
    → IsOwn json s
check_record-IsOwn json s text (some (obj r)) direct there parsed a b c =
    let (known, inode) =
      raise_if-eq-ok
        (not (has_text (codes "t6-kvm") (get (codes "project") r))
          || not (has_text s.boot_id (get (codes "boot_id") r)))
        mismatch (check_inode r s.tree) a in
    record {
      direct = direct;
      text = text;
      there = there;
      fields = r;
      parsed = parsed;
      project = has_text-some (codes "t6-kvm") (get (codes "project") r) (ground arith);
      boot = has_text-some s.boot_id (get (codes "boot_id") r) (ground arith);
      tree = check_inode-tree r s.tree inode b c;
    }
check_record-IsOwn json s text v direct there parsed a b c = cc

check_owner-IsOwn :
    (json : Json) (s : Site) (o : Option (List ℕ))
    → s.owner_linked ≡ false
    → s.owner ≡ o
    → check_owner json s o ≡ ok tt
    → allowed_tree s.tree ≡ ok tt
    → check_links s.tree ≡ ok tt
    → IsOwn json s
check_owner-IsOwn json s none direct there a b c = cc
check_owner-IsOwn json s (some text) direct there a b c =
    check_record-IsOwn json s text (json.loads text) direct there refl a b c

-- What passes the tests is the tool's own.
pub check_site-IsOwn : (json : Json) (s : Site) → check_site json s ≡ ok tt → IsOwn json s
unfolding check_site validate_owner
check_site-IsOwn json s e =
    let (_, mine, rest) =
      >>=-eq-ok (raise_if s.owner_linked symlink >> check_owner json s s.owner)
        (λ _. allowed_tree s.tree >> check_links s.tree) e in
    let (_, allowed, linked) = >>=-eq-ok (allowed_tree s.tree) (λ _. check_links s.tree) rest in
    let (direct, owned) = raise_if-eq-ok s.owner_linked symlink (check_owner json s s.owner) mine in
    check_owner-IsOwn json s s.owner direct refl owned allowed linked
