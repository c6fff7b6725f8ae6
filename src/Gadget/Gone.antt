-- ===== src/Gadget/Gone.antt =====
-- What is left of the gadget behind `cleanup` of tools/gadget.py, where configfs does as it documents.
use nanopc_t6_kvm.Base.{
  ℕ, ◌≡◌, inl, inr, refl, sym, ap, ◌∙◌, Bool, true, false, List, [], ◌∷◌, ◌++◌, map, Option, none,
  some, Bool-cases, All, list_eq, list_eq_iff, ok,
}
use mathlib.Core.List.{map-append}
use nanopc_t6_kvm.Broker.{codes}
use nanopc_t6_kvm.Endpoint.{is_some}
use nanopc_t6_kvm.Value.{Json}
use nanopc_t6_kvm.Gadget.Own.{OwnLink, IsOwnTree, IsOwn}
use nanopc_t6_kvm.Gadget.Removed.{own_passes}
use nanopc_t6_kvm.Gadget.{
  Link, Tree, Site, Action, write_udc, unlink_owner, rmdir_run, unlink, rmdir, gadget_path,
  leads_to, Step, call, perform, link_at, link_steps, links_of, dir_steps, dirs, has_function,
  tree_steps, finish, cleanup,
}
use nanopc_t6_kvm.Gadget.Effects.{
  effects, nothing, standing, when, effects_on, dir_calls, tree_calls, effects-tree_calls,
}

-- Steps that are these calls.
abbrev Are : List (Step Action) → List Action → Type 0
Are steps calls = steps ≡ map call calls

Are-append :
    (xs ys : List (Step Action)) (cs ds : List Action)
    → Are xs cs
    → Are ys ds
    → Are (xs ++ ys) (cs ++ ds)
Are-append xs ys cs ds h k = rw (h, k) (sym (map-append call cs ds))

perform-Are : (cs : List Action) → perform (λ _. false) (map call cs) ≡ (cs, ok tt)
perform-Are [] = refl
perform-Are (c ∷ cs) = rw (perform-Are cs) refl

dir_steps-Are : (b : Bool) (rel : List ℕ) → Are (dir_steps b rel) (when b (rmdir rel))
dir_steps-Are true rel = refl
dir_steps-Are false rel = refl

leads_to_own : (name : List ℕ) → leads_to (gadget_path ++ (codes "functions/" ++ name)) name ≡ true
leads_to_own name =
    (list_eq_iff (gadget_path ++ (codes "functions/" ++ name))
        (gadget_path ++ (codes "functions/" ++ name))).1
      refl

link_at-leads_to :
    (name : List ℕ) (ls : List Link) {target : List ℕ}
    → All OwnLink ls
    → link_at name ls ≡ some target
    → leads_to target name ≡ true
link_at-leads_to name [] h e = cc
link_at-leads_to name (l ∷ ls) {target} (h, hs) e = elim (Bool-cases (list_eq l.name name)) [
  | inl same ↦
      let there = (h target (rw same at e)).1 in
      rw (there, (list_eq_iff l.name name).0 same) (leads_to_own name)
  | inr other ↦ link_at-leads_to name ls hs (rw other at e)
]

link_steps-Are :
    (name : List ℕ) (o : Option (List ℕ))
    → ((target : List ℕ) → o ≡ some target → leads_to target name ≡ true)
    → Are (link_steps name o) (when (is_some o) (unlink (codes "configs/c.1/" ++ name)))
link_steps-Are name none h = refl
link_steps-Are name (some target) h = rw (h target refl) refl

dirs-Are : (t : Tree) → Are (dirs t) (dir_calls (standing t))
dirs-Are t = Are-append _ _ _ _ (dir_steps-Are t.profile_strings _) (
    Are-append _ _ _ _ (dir_steps-Are (is_some t.profile) _) (
      Are-append _ _ _ _ (dir_steps-Are (has_function (codes "hid.usb1") t.functions) _) (
        Are-append _ _ _ _ (dir_steps-Are (has_function (codes "hid.usb0") t.functions) _)
          (Are-append _ [] _ [] (dir_steps-Are t.strings _) refl))))

tree_steps-Are :
    (t : Tree) → All OwnLink (links_of t) → Are (tree_steps (some t)) (tree_calls (standing t))
tree_steps-Are t h =
    ap (λ r. call write_udc ∷ r)
      (Are-append _ _ _ _
        (link_steps-Are (codes "hid.usb0") (link_at (codes "hid.usb0") (links_of t))
          (λ target. link_at-leads_to (codes "hid.usb0") (links_of t) h))
        (Are-append _ _ _ _
          (link_steps-Are (codes "hid.usb1") (link_at (codes "hid.usb1") (links_of t))
            (λ target. link_at-leads_to (codes "hid.usb1") (links_of t) h))
          (Are-append _ _ _ _ (dirs-Are t) refl)))

abbrev all_calls : Tree → List Action
all_calls t = (tree_calls (standing t) ++ (unlink_owner ∷ [])) ++ (rmdir_run ∷ [])

cleanup-calls :
    (json : Json) (s : Site) (t : Tree)
    → IsOwn json s
    → s.tree ≡ some t
    → cleanup json (λ _. false) s ≡ (all_calls t, ok tt)
unfolding cleanup
cleanup-calls json s t own there =
    let mine : IsOwnTree own.fields t = rw there at own.tree in
    let steps =
      Are-append (tree_steps (some t)) (call unlink_owner ∷ []) (tree_calls (standing t))
        (unlink_owner ∷ []) (tree_steps-Are t mine.links) refl in
    rw (own_passes json s own, there)
      (ap (λ r. finish (perform (λ _. false) r)) steps
        ∙ ap finish (perform-Are (tree_calls (standing t) ++ (unlink_owner ∷ []))))

effects-all_calls : (t : Tree) → effects (all_calls t) (standing t) ≡ some nothing
effects-all_calls t =
    let l = standing t in
    effects_on (tree_calls l ++ (unlink_owner ∷ [])) (rmdir_run ∷ []) l nothing
      (effects_on (tree_calls l) (unlink_owner ∷ []) l nothing
        (effects-tree_calls l.link0 l.link1 l) refl)
      refl

-- A cleanup of the tool's own gadget, of which no call fails, returns, and on a configfs that refuses a call
-- that comes too early, all its calls are done and nothing of the gadget is left.
pub cleanup-gone :
    (json : Json) (s : Site) (t : Tree)
    → IsOwn json s
    → s.tree ≡ some t
    → ((cleanup json (λ _. false) s).1 ≡ ok tt)
      × (effects (cleanup json (λ _. false) s).0 (standing t) ≡ some nothing)
unfolding cleanup
cleanup-gone json s t own there = rw (cleanup-calls json s t own there) (refl, effects-all_calls t)
