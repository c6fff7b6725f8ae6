-- ===== src/Gadget/Effects.antt =====
-- The calls on configfs, and what is left of a gadget behind those of a cleanup.
use nanopc_t6_kvm.Base.{
  ℕ, ◌≡◌, refl, ◌∙◌, Bool, true, false, ◌&&◌, ◌||◌, not, List, [], ◌∷◌, ◌++◌, Option, none, some,
  if◌then◌else◌, list_eq,
}
use nanopc_t6_kvm.Broker.{codes}
use nanopc_t6_kvm.Endpoint.{is_some}
use nanopc_t6_kvm.Gadget.{
  Tree, Action, write_udc, rmdir_gadget, unlink_owner, rmdir_run, unlink, rmdir, link_at, links_of,
  has_function,
}

-- What stands in the gadget, as far as it stops a removal.
pub record Left : Type 0 where
  pub gadget : Bool
  pub link0 : Bool
  pub link1 : Bool
  pub profile_strings : Bool
  pub profile : Bool
  pub function0 : Bool
  pub function1 : Bool
  pub strings : Bool

abbrev pub is_path : List ℕ → Action → Bool
is_path rel (unlink p) = list_eq p rel
is_path rel (rmdir p) = list_eq p rel
is_path rel a = false

abbrev needs : Bool → Left → Option Left
needs true l = some l
needs false l = none

-- The calls on configfs. A directory is removed where nothing holds it: a function is held by its link,
-- the profile by its links and strings, the gadget by all that was made in it.
abbrev pub effect : Action → Left → Option Left
effect write_udc l = needs l.gadget l
effect unlink_owner l = some l
effect rmdir_run l = some l
effect rmdir_gadget l =
    needs
      (l.gadget
        && not (
            l.link0 || l.link1 || l.profile_strings || l.profile || l.function0 || l.function1
            || l.strings))
      (record l { gadget = false })
effect (unlink p) l =
    if list_eq p (codes "configs/c.1/hid.usb0")
    then needs l.link0 (record l { link0 = false })
    else if list_eq p (codes "configs/c.1/hid.usb1")
    then needs l.link1 (record l { link1 = false })
    else none
effect (rmdir p) l =
    if list_eq p (codes "configs/c.1/strings/0x409")
    then needs l.profile_strings (record l { profile_strings = false })
    else if list_eq p (codes "configs/c.1")
    then needs (l.profile && not (l.link0 || l.link1 || l.profile_strings))
        (record l { profile = false })
    else if list_eq p (codes "functions/hid.usb1")
    then needs (l.function1 && not l.link1) (record l { function1 = false })
    else if list_eq p (codes "functions/hid.usb0")
    then needs (l.function0 && not l.link0) (record l { function0 = false })
    else if list_eq p (codes "strings/0x409")
    then needs l.strings (record l { strings = false })
    else none

abbrev pub next : Option Left → (Left → Option Left) → Option Left
next none f = none
next (some l) f = f l

abbrev pub effects : List Action → Left → Option Left
effects [] l = some l
effects (a ∷ rest) l = next (effect a l) (effects rest)

abbrev pub nothing : Left
nothing = record {
  gadget = false;
  link0 = false;
  link1 = false;
  profile_strings = false;
  profile = false;
  function0 = false;
  function1 = false;
  strings = false;
}

abbrev pub standing : Tree → Left
standing t = record {
  gadget = true;
  link0 = is_some (link_at (codes "hid.usb0") (links_of t));
  link1 = is_some (link_at (codes "hid.usb1") (links_of t));
  profile_strings = t.profile_strings;
  profile = is_some t.profile;
  function0 = has_function (codes "hid.usb0") t.functions;
  function1 = has_function (codes "hid.usb1") t.functions;
  strings = t.strings;
}

abbrev pub when : Bool → Action → List Action
when b a = if b then a ∷ [] else []

then-append :
    (o : Option Left) (f g h : Left → Option Left)
    → ((l : Left) → f l ≡ next (g l) h)
    → next o f ≡ next (next o g) h
then-append none f g h e = refl
then-append (some l) f g h e = e l

effects-append :
    (xs ys : List Action) (k : Left) → effects (xs ++ ys) k ≡ next (effects xs k) (effects ys)
effects-append [] ys k = refl
effects-append (a ∷ xs) ys k =
    then-append (effect a k) (effects (xs ++ ys)) (effects xs) (effects ys) (effects-append xs ys)

pub effects_on :
    (xs ys : List Action) (k m : Left) {n : Option Left}
    → effects xs k ≡ some m
    → effects ys m ≡ n
    → effects (xs ++ ys) k ≡ n
effects_on xs ys k m h g = effects-append xs ys k ∙ rw h g

-- A call that is made where it has something to remove, and those behind it.
effects-when :
    (b : Bool) (a : Action) (rest : List Action) (l : Bool → Left) {n : Option Left}
    → effects (a ∷ []) (l true) ≡ some (l false)
    → effects rest (l false) ≡ n
    → effects (when b a ++ rest) (l b) ≡ n
effects-when true a rest l h k = effects_on (a ∷ []) rest (l true) (l false) h k
effects-when false a rest l h k = k

-- The calls of a cleanup that is not refused, each part with those that follow it.
abbrev calls_strings : Bool → List Action
calls_strings s = when s (rmdir (codes "strings/0x409")) ++ []

abbrev calls_function0 : (f0 s : Bool) → List Action
calls_function0 f0 s = when f0 (rmdir (codes "functions/hid.usb0")) ++ calls_strings s

abbrev calls_function1 : (f1 f0 s : Bool) → List Action
calls_function1 f1 f0 s = when f1 (rmdir (codes "functions/hid.usb1")) ++ calls_function0 f0 s

abbrev calls_profile : (p f1 f0 s : Bool) → List Action
calls_profile p f1 f0 s = when p (rmdir (codes "configs/c.1")) ++ calls_function1 f1 f0 s

abbrev pub dir_calls : Left → List Action
dir_calls l =
    when l.profile_strings (rmdir (codes "configs/c.1/strings/0x409"))
    ++ calls_profile l.profile l.function1 l.function0 l.strings

abbrev calls_link1 : Left → List Action
calls_link1 l =
    when l.link1 (unlink (codes "configs/c.1/hid.usb1")) ++ (dir_calls l ++ (rmdir_gadget ∷ []))

abbrev pub tree_calls : Left → List Action
tree_calls l = write_udc ∷ (when l.link0 (unlink (codes "configs/c.1/hid.usb0")) ++ calls_link1 l)

-- A gadget of which only directories are left, some of them.
abbrev only_dirs : (ps p f1 f0 s : Bool) → Left
only_dirs ps p f1 f0 s = record {
  gadget = true;
  link0 = false;
  link1 = false;
  profile_strings = ps;
  profile = p;
  function0 = f0;
  function1 = f1;
  strings = s;
}

effects-dir_calls :
    (ps p f1 f0 s : Bool)
    → effects (dir_calls (only_dirs ps p f1 f0 s)) (only_dirs ps p f1 f0 s)
      ≡ some (only_dirs false false false false false)
effects-dir_calls ps p f1 f0 s =
    effects-when ps (rmdir (codes "configs/c.1/strings/0x409")) (calls_profile p f1 f0 s)
      (λ b. only_dirs b p f1 f0 s) refl
      (effects-when p (rmdir (codes "configs/c.1")) (calls_function1 f1 f0 s)
        (λ b. only_dirs false b f1 f0 s) refl
        (effects-when f1 (rmdir (codes "functions/hid.usb1")) (calls_function0 f0 s)
          (λ b. only_dirs false false b f0 s) refl
          (effects-when f0 (rmdir (codes "functions/hid.usb0")) (calls_strings s)
            (λ b. only_dirs false false false b s) refl
            (effects-when s (rmdir (codes "strings/0x409")) []
              (λ b. only_dirs false false false false b) refl refl))))

-- A gadget with links, too.
abbrev with_links : (l0 l1 : Bool) → Left → Left
with_links l0 l1 l = record l { gadget = true; link0 = l0; link1 = l1 }

pub effects-tree_calls :
    (l0 l1 : Bool) (l : Left)
    → effects (tree_calls (with_links l0 l1 l)) (with_links l0 l1 l) ≡ some nothing
effects-tree_calls l0 l1 l =
    effects-when l0 (unlink (codes "configs/c.1/hid.usb0")) (calls_link1 (with_links l0 l1 l))
      (λ b. with_links b l1 l) refl
      (effects-when l1 (unlink (codes "configs/c.1/hid.usb1")) (dir_calls l ++ (rmdir_gadget ∷ []))
        (λ b. with_links false b l) refl
        (effects_on (dir_calls l) (rmdir_gadget ∷ [])
          (only_dirs l.profile_strings l.profile l.function1 l.function0 l.strings)
          (only_dirs false false false false false)
          (effects-dir_calls l.profile_strings l.profile l.function1 l.function0 l.strings) refl))
