-- ===== src/Admin/Install/Held.antt =====
-- What stays noted for a location while `install` of tools/admin.py copies a tree and gives it to root.
use nanopc_t6_kvm.Base.{
  ℕ, ◌≡◌, inl, inr, refl, ap, ◌∙◌, Bool, List, [], ◌∷◌, ◌++◌, Option, none, some, Bool-cases, drop,
  All, list_eq, list_eq_iff, ok, ok-injective,
}
use mathlib.Core.Path.{subst}
use nanopc_t6_kvm.Admin.{
  Location, same, Node, dir, file, link, special, Nodes, node_at, delete, put,
}
use nanopc_t6_kvm.Admin.Files.{same_iff, same_refl, node_at-put}
use nanopc_t6_kvm.Admin.Call.{Host}
use nanopc_t6_kvm.Admin.Stage.{rest_of, add_entry, entries}
use nanopc_t6_kvm.Admin.Install.{copied, given_to_root, not_for_others}

-- The same but for the owner and the mode.
pub data Alike : Node → Node → Type 0 where
  dirs : {uid mode uid' mode' : ℕ} → Alike (dir uid mode) (dir uid' mode')
  files :
      {content : List ℕ} {uid gid mode uid' gid' mode' : ℕ}
      → Alike (file content uid gid mode) (file content uid' gid' mode')
  links :
      {absolute : Bool} {target : Location} → Alike (link absolute target) (link absolute target)

pub copied-Alike : (h : Host) (n : Node) {k : Node} → copied h n ≡ ok k → Alike n k
copied-Alike h (dir uid mode) e = subst (Alike (dir uid mode)) (ok-injective e) dirs
copied-Alike h (file content uid gid mode) e =
    subst (Alike (file content uid gid mode)) (ok-injective e) files
copied-Alike h (link absolute target) e =
    subst (Alike (link absolute target)) (ok-injective e) links
copied-Alike h special e = cc

pub given_to_root-Alike : {n k : Node} → Alike n k → Alike n (given_to_root k)
given_to_root-Alike dirs = dirs
given_to_root-Alike files = files
given_to_root-Alike links = links

pub not_for_others-Alike : {n k : Node} → Alike n k → Alike n (not_for_others k)
not_for_others-Alike dirs = dirs
not_for_others-Alike files = files
not_for_others-Alike links = links

-- An entry with the name, and its copy.
pub data Among (rel : Location) (k : Node) : List (Location × Node) → Type 0 where
  first_one : {n : Node} {es : List (Location × Node)} → Alike n k → Among rel k ((rel, n) ∷ es)
  later_one :
      {e : Location × Node} {es : List (Location × Node)} → Among rel k es → Among rel k (e ∷ es)

pub Among-given_to_root :
    {rel : Location} {k : Node} {es : List (Location × Node)}
    → Among rel k es
    → Among rel (given_to_root k) es
Among-given_to_root (first_one a) = first_one (given_to_root-Alike a)
Among-given_to_root (later_one a) = later_one (Among-given_to_root a)

pub Among-not_for_others :
    {rel : Location} {k : Node} {es : List (Location × Node)}
    → Among rel k es
    → Among rel (not_for_others k) es
Among-not_for_others (first_one a) = first_one (not_for_others-Alike a)
Among-not_for_others (later_one a) = later_one (Among-not_for_others a)

module _ (Q : Node → Type 0) where
  -- Whatever is noted for the location.
  abbrev pub AllAt : Location → Nodes → Type 0
  AllAt l ns = All (λ e. e.0 ≡ l → Q e.1) ns

  pub record Held (l : Location) (ns : Nodes) : Type 0 where
    pub there : (k : Node) × (node_at l ns ≡ some k) × Q k
    pub every : AllAt l ns

  delete-AllAt : (l d : Location) (ns : Nodes) → AllAt l ns → AllAt l (delete d ns)
  delete-AllAt l d [] a = tt
  delete-AllAt l d ((j, n) ∷ ns) (a, others) = elim (Bool-cases (same j d)) [
    | inl gone ↦ rw gone (delete-AllAt l d ns others)
    | inr kept ↦ rw kept (a, delete-AllAt l d ns others)
  ]

  delete-AllAt_self : (l : Location) (ns : Nodes) → AllAt l (delete l ns)
  delete-AllAt_self l [] = tt
  delete-AllAt_self l ((j, n) ∷ ns) = elim (Bool-cases (same j l)) [
    | inl gone ↦ rw gone (delete-AllAt_self l ns)
    | inr kept ↦ rw kept ((λ e. let q = (same_iff j l).1 e in cc), delete-AllAt_self l ns)
  ]

  pub put-AllAt :
      (l d : Location) (n : Node) (ns : Nodes) → (d ≡ l → Q n) → AllAt l ns → AllAt l (put d n ns)
  put-AllAt l d n ns q a = (q, delete-AllAt l d ns a)

  pub put-Held :
      (l d : Location) (n : Node) (ns : Nodes) → (d ≡ l → Q n) → Held l ns → Held l (put d n ns)
  put-Held l d n ns q held = elim (Bool-cases (same d l)) [
    | inl here ↦ record {
      there = (n, rw here refl, q ((same_iff d l).0 here));
      every = put-AllAt l d n ns q held.every;
    }
    | inr apart ↦
        let (k, at_l, good) = held.there in
        record {
          there = (k, node_at-put d l n ns ∙ rw apart at_l, good);
          every = put-AllAt l d n ns q held.every;
        }
  ]

  pub put-Held_here : (l : Location) (n : Node) (ns : Nodes) → Q n → Held l (put l n ns)
  put-Held_here l n ns q = record {
    there = (n, rw (same_refl l) refl, q);
    every = ((λ _. q), delete-AllAt_self l ns);
  }

  pub node_at-AllAt :
      (l d : Location) (ns : Nodes) {n : Node} → node_at d ns ≡ some n → AllAt l ns → d ≡ l → Q n
  node_at-AllAt l d [] e a p = cc
  node_at-AllAt l d ((j, m) ∷ ns) {n} e (a, others) p = elim (Bool-cases (same j d)) [
    | inl here ↦
        let q : ◌≡◌ {A = Option Node} (some m) (some n) = rw here at e in
        let same_node : m ≡ n = cc in subst Q same_node (a ((same_iff j d).0 here ∙ p))
    | inr apart ↦ node_at-AllAt l d ns (rw apart at e) others p
  ]

pub rest_of-some : (d l : Location) {rel : Location} → rest_of d l ≡ some rel → l ≡ d ++ rel
rest_of-some [] [] e = cc
rest_of-some [] (n ∷ ns) {rel} e = let q : (n ∷ ns) ≡ rel = cc in q
rest_of-some (r ∷ rs) [] e = cc
rest_of-some (r ∷ rs) (n ∷ ns) {rel} e = elim (Bool-cases (list_eq r n)) [
  | inl here ↦
      let q = rest_of-some rs ns (rw here at e) in
      let p : r ≡ n = (list_eq_iff r n).0 here in rw (p, q) refl
  | inr apart ↦ let q = rw apart at e in cc
]

-- The names behind a location are told apart by it.
pub append_cancel : (d a b : Location) → d ++ a ≡ d ++ b → a ≡ b
append_cancel [] a b e = e
append_cancel (n ∷ ns) a b e = append_cancel ns a b (ap (drop 1) e)

module _ (Q : Node → Type 0) (l : Location) where
  -- The entries below a location, as they are noted.
  abbrev pub EntriesAt : Location → List (Location × Node) → Type 0
  EntriesAt d es = All (λ e. d ++ e.0 ≡ l → Q e.1) es

  add_entry-EntriesAt :
      (d j : Location) (n : Node) (es : List (Location × Node)) (rel : Option Location)
      → rest_of d j ≡ rel
      → (j ≡ l → Q n)
      → EntriesAt d es
      → EntriesAt d (add_entry rel n es)
  add_entry-EntriesAt d j n es none e q a = a
  add_entry-EntriesAt d j n es (some rel) e q a = ((λ p. q (rest_of-some d j e ∙ p)), a)

  pub entries-EntriesAt : (d : Location) (ns : Nodes) → AllAt Q l ns → EntriesAt d (entries d ns)
  entries-EntriesAt d [] a = tt
  entries-EntriesAt d ((j, n) ∷ ns) (a, others) =
      add_entry-EntriesAt d j n (entries d ns) (rest_of d j) refl a (entries-EntriesAt d ns others)
