-- ===== src/Gadget/Removed.antt =====
-- What `cleanup` of tools/gadget.py removes.
use nanopc_t6_kvm.Base.{
  ℕ, ◌≡◌, ◌⊎◌, inl, inr, refl, Bool, true, false, List, [], ◌∷◌, ◌++◌, Option, none, some,
  Bool-cases, All, All-append, list_eq, list_eq_iff, ok, err, ◌>>◌,
}
use nanopc_t6_kvm.Broker.{codes}
use nanopc_t6_kvm.Endpoint.{is_some}
use nanopc_t6_kvm.Panel.Backups.{member}
use nanopc_t6_kvm.Value.{Fields, Json}
use nanopc_t6_kvm.Gadget.Own.{OwnLink, Known, IsOwnSite, IsOwn, check_site-IsOwn}
use nanopc_t6_kvm.Gadget.{
  Link, Tree, Site, Action, unlink_owner, rmdir_run, unlink, rmdir, gadget_path, Check, check_inode,
  validate_owner, other_names, hids, allowed_tree, leads_to, is_unexpected, some_unexpected,
  check_profile, check_links, check_site, Step, call, stop, perform, link_at, link_steps, links_of,
  dir_steps, dirs, has_function, tree_steps, finish, remove, cleanup,
}

text_self : (s : List ℕ) → list_eq s s ≡ true
text_self s = (list_eq_iff s s).1 refl

other_names-false :
    (known : List (List ℕ)) (o : Option (List (List ℕ)))
    → Known known o
    → other_names known o ≡ false
other_names-false known none h = refl
other_names-false known (some []) h = refl
other_names-false known (some (n ∷ ns)) (h, hs) = rw h (other_names-false known (some ns) hs)

is_unexpected-false :
    (l : Link) (o : Option (List ℕ)) → l.target ≡ o → OwnLink l → is_unexpected l o ≡ false
is_unexpected-false l none e own = refl
is_unexpected-false l (some target) e own =
    let (known, there) = own target e in
    rw (known, there, text_self (gadget_path ++ (codes "functions/" ++ l.name))) refl

some_unexpected-false : (ls : List Link) → All OwnLink ls → some_unexpected ls ≡ false
some_unexpected-false [] h = refl
some_unexpected-false (l ∷ ls) (h, hs) =
    rw (is_unexpected-false l l.target refl h) (some_unexpected-false ls hs)

check_profile-ok :
    (o : Option (List Link))
    → All OwnLink (elim o [ none ↦ [] | some ls ↦ ls ])
    → check_profile o ≡ ok tt
check_profile-ok none h = refl
check_profile-ok (some ls) h = rw (some_unexpected-false ls h) refl

own_tree_passes :
    (r : Fields) (o : Option Tree)
    → IsOwnSite r o
    → (check_inode r o >> (allowed_tree o >> check_links o)) ≡ ok tt
unfolding allowed_tree
own_tree_passes r none h = refl
own_tree_passes r (some t) h =
    rw
      (
        h.inode,
        other_names-false hids t.functions h.functions,
        other_names-false (codes "c.1" ∷ []) t.configs h.configs,
        h.serial,
      )
      (check_profile-ok t.profile h.links)

pub own_passes : (json : Json) (s : Site) → IsOwn json s → check_site json s ≡ ok tt
unfolding check_site validate_owner
own_passes json s a =
    rw (a.direct, a.there, a.parsed, a.project, a.boot, text_self s.boot_id)
      (own_tree_passes a.fields s.tree a.tree)

-- The paths below the gadget that the tool unlinks or removes.
abbrev pub own_links : List (List ℕ)
own_links = codes "configs/c.1/hid.usb0" ∷ codes "configs/c.1/hid.usb1" ∷ []

abbrev pub own_dirs : List (List ℕ)
own_dirs =
    codes "configs/c.1/strings/0x409"
    ∷ codes "configs/c.1"
    ∷ codes "functions/hid.usb1"
    ∷ codes "functions/hid.usb0"
    ∷ codes "strings/0x409"
    ∷ []

abbrev pub IsOwnCall : Action → Type 0
IsOwnCall (unlink rel) = member own_links rel ≡ true
IsOwnCall (rmdir rel) = member own_dirs rel ≡ true
IsOwnCall a = Unit

abbrev Calls : Step Action → Type 0
Calls (call a) = IsOwnCall a
Calls (stop e) = Unit

perform-All :
    (fails : Action → Bool) (steps : List (Step Action))
    → All Calls steps
    → All IsOwnCall (perform fails steps).0
perform-All fails [] h = tt
perform-All fails (stop e ∷ steps) h = tt
perform-All fails (call a ∷ steps) (h, hs) = elim (Bool-cases (fails a)) [
  | inl bad ↦ rw bad (h, tt)
  | inr good ↦ rw good (h, perform-All fails steps hs)
]

link_steps-All :
    (name : List ℕ) (o : Option (List ℕ))
    → member own_links (codes "configs/c.1/" ++ name) ≡ true
    → All Calls (link_steps name o)
link_steps-All name none h = tt
link_steps-All name (some target) h = elim (Bool-cases (leads_to target name)) [
  | inl own ↦ rw own (h, tt)
  | inr other ↦ rw other (tt, tt)
]

dir_steps-All :
    (there : Bool) (rel : List ℕ) → member own_dirs rel ≡ true → All Calls (dir_steps there rel)
dir_steps-All true rel h = (h, tt)
dir_steps-All false rel h = tt

dirs-All : (t : Tree) → All Calls (dirs t)
dirs-All t = All-append Calls _ _ (dir_steps-All t.profile_strings _ refl) (
    All-append Calls _ _ (dir_steps-All (is_some t.profile) _ refl) (
      All-append Calls _ _ (dir_steps-All (has_function (codes "hid.usb1") t.functions) _ refl) (
        All-append Calls _ _ (dir_steps-All (has_function (codes "hid.usb0") t.functions) _ refl)
          (All-append Calls _ [] (dir_steps-All t.strings _ refl) tt))))

tree_steps-All : (o : Option Tree) → All Calls (tree_steps o)
tree_steps-All none = tt
tree_steps-All (some t) = (
  tt,
  All-append Calls _ _
      (link_steps-All (codes "hid.usb0") (link_at (codes "hid.usb0") (links_of t)) refl)
      (All-append Calls _ _
        (link_steps-All (codes "hid.usb1") (link_at (codes "hid.usb1") (links_of t)) refl)
        (All-append Calls (dirs t) _ (dirs-All t) (tt, tt))),
)

finish-All : (r : List Action × Check) → All IsOwnCall r.0 → All IsOwnCall (finish r).0
finish-All (calls, err e) h = h
finish-All (calls, ok _) h = All-append IsOwnCall calls (rmdir_run ∷ []) h (tt, tt)

-- Whatever calls fail: nothing is called, or the gadget is the tool's own and so is all that is unlinked
-- or removed.
pub cleanup-IsOwn :
    (json : Json) (fails : Action → Bool) (s : Site)
    → ((cleanup json fails s).0 ≡ []) ⊎ (IsOwn json s × All IsOwnCall (cleanup json fails s).0)
unfolding cleanup
cleanup-IsOwn json fails s = go (check_site json s) refl
  where
    go :
        (c : Check)
        → check_site json s ≡ c
        → ((remove fails s c).0 ≡ []) ⊎ (IsOwn json s × All IsOwnCall (remove fails s c).0)
    go (err e) h = inl refl
    go (ok _) h = inr (
      check_site-IsOwn json s h,
      finish-All (perform fails (tree_steps s.tree ++ (call unlink_owner ∷ []))) (
          perform-All fails (tree_steps s.tree ++ (call unlink_owner ∷ [])) (
            All-append Calls (tree_steps s.tree) (call unlink_owner ∷ []) (tree_steps-All s.tree)
              (tt, tt))),
    )
