-- ===== src/Admin/Install/Copied.antt =====
-- What `copy_tree` of tools/admin.py, a call of `copytree` with the changes of owners and modes, has copied.
use nanopc_t6_kvm.Base.{
  ◌≡◌, refl, sym, ap, ◌∙◌, Bool, true, false, List, [], ◌∷◌, ◌++◌, Option, none, some,
  if◌then◌else◌, All, ok, err,
}
use mathlib.Core.List.{append-nil}
use mathlib.Core.Path.{subst}
use nanopc_t6_kvm.Admin.{Location, Node, Nodes, node_at, put, is_link, stat}
use nanopc_t6_kvm.Admin.Call.{World, Host, os_error, pure, look, from, set, ◌>>=◌}
use nanopc_t6_kvm.Admin.Call.Reads.{
  bind-ok, reads-ok, change-ok, ended, from-ok, finally-ok, Reads-look, Reads-from, look-ok,
}
use nanopc_t6_kvm.Admin.Stage.{entries}
use nanopc_t6_kvm.Admin.Install.{
  copied, given_to_root, not_for_others, copy_all, give_all, copy_tree,
}
use nanopc_t6_kvm.Admin.Install.Held.{
  Among, first_one, later_one, Among-given_to_root, Among-not_for_others, copied-Alike, AllAt, Held,
  put-Held, put-Held_here, node_at-AllAt, append_cancel, EntriesAt, entries-EntriesAt,
}

set-nodes :
    (h : Host) (l : Location) (n : Node) (w : World) {v : World}
    → set h l n w ≡ (v, ok tt)
    → v.nodes ≡ put l n w.nodes
unfolding set
set-nodes h l n w e =
    ap (λ x. x.nodes) (change-ok h (λ w. record w { nodes = put l n w.nodes }) w e)

-- A name among those of the entries.
pub data Names (rel : Location) : List (Location × Node) → Type 0 where
  at_first : {n : Node} {es : List (Location × Node)} → Names rel ((rel, n) ∷ es)
  at_later : {e : Location × Node} {es : List (Location × Node)} → Names rel es → Names rel (e ∷ es)

module _ (h : Host) (Q : Node → Type 0) where
  set-Held :
      (l d : Location) (n : Node) (w : World) {v : World}
      → set h d n w ≡ (v, ok tt)
      → (d ≡ l → Q n)
      → Held Q l w.nodes
      → Held Q l v.nodes
  set-Held l d n w e q held =
      subst (Held Q l) (sym (set-nodes h d n w e)) (put-Held Q l d n w.nodes q held)

  -- What is copied to the location is as it is asked for.
  abbrev CopiesAt : Location → Location → List (Location × Node) → Type 0
  CopiesAt dest l es = All (λ e. dest ++ e.0 ≡ l → (k : Node) → copied h e.1 ≡ ok k → Q k) es

  copy_one :
      (d : Location) (n : Node) (w : World) {v : World}
      → (from (copied h n) >>= λ made. set h d made) w ≡ (v, ok tt)
      → (k : Node) × (copied h n ≡ ok k) × (set h d k w ≡ (v, ok tt))
  copy_one d n w e =
      let (k, got, rest) = reads-ok (from (copied h n)) (λ made. set h d made) w (Reads-from _) e in
      (k, from-ok (copied h n) w got, rest)

  copy_all-Held :
      (dest l : Location) (es : List (Location × Node)) (w : World) {v : World}
      → copy_all h dest es w ≡ (v, ok tt)
      → CopiesAt dest l es
      → Held Q l w.nodes
      → Held Q l v.nodes
  unfolding copy_all pure
  copy_all-Held dest l [] w e c held = subst (λ x. Held Q l x.nodes) (ap (λ r. r.0) e) held
  copy_all-Held dest l ((rel, n) ∷ es) w e (c, others) held =
      let call = from (copied h n) >>= λ made. set h (dest ++ rel) made in
      let (first, rest) = finally-ok call (copy_all h dest es) w e in
      let (k, made, done) = copy_one (dest ++ rel) n w (ended (call w) first) in
      copy_all-Held dest l es _ rest others
        (set-Held l (dest ++ rel) k w done (λ p. c p k made) held)

  copy_all-Held_named :
      (dest rel : Location) (es : List (Location × Node)) (w : World) {v : World}
      → copy_all h dest es w ≡ (v, ok tt)
      → CopiesAt dest (dest ++ rel) es
      → Names rel es
      → Held Q (dest ++ rel) v.nodes
  unfolding copy_all
  copy_all-Held_named dest rel [] w e c names = elim names [ ]
  copy_all-Held_named dest rel ((_, n) ∷ es) w e (c, others) at_first =
      let call = from (copied h n) >>= λ made. set h (dest ++ rel) made in
      let (first, rest) = finally-ok call (copy_all h dest es) w e in
      let (k, made, done) = copy_one (dest ++ rel) n w (ended (call w) first) in
      copy_all-Held dest (dest ++ rel) es _ rest others (
        subst (Held Q (dest ++ rel)) (sym (set-nodes h (dest ++ rel) k w done))
          (put-Held_here Q (dest ++ rel) k w.nodes (c refl k made)))
  copy_all-Held_named dest rel ((r, n) ∷ es) w e (c, others) (at_later names) =
      let call = from (copied h n) >>= λ made. set h (dest ++ r) made in
      let (first, rest) = finally-ok call (copy_all h dest es) w e in
      copy_all-Held_named dest rel es _ rest others names

  module _ (given : (k : Node) → Q k → Q (given_to_root k))
      (closed : (k : Node) → Q k → Q (not_for_others k)) where
    narrowed :
        (b : Bool) (l d : Location) (n : Node) (w : World) {v : World}
        → (if b then pure tt else set h d n) w ≡ (v, ok tt)
        → (d ≡ l → Q n)
        → Held Q l w.nodes
        → Held Q l v.nodes
    unfolding pure
    narrowed true l d n w e q held = subst (λ x. Held Q l x.nodes) (ap (λ r. r.0) e) held
    narrowed false l d n w e q held = set-Held l d n w e q held

    give_all-Held :
        (dest l : Location) (es : List (Location × Node)) (w : World) {v : World}
        → give_all h dest es w ≡ (v, ok tt)
        → EntriesAt Q l dest es
        → Held Q l w.nodes
        → Held Q l v.nodes
    unfolding give_all pure
    give_all-Held dest l [] w e c held = subst (λ x. Held Q l x.nodes) (ap (λ r. r.0) e) held
    give_all-Held dest l ((rel, n) ∷ es) w e (c, others) held =
        let (_, one, e1) = bind-ok (set h (dest ++ rel) (given_to_root n)) _ w e in
        let (_, two, e2) =
          bind-ok
            (if is_link (some n)
              then pure tt
              else set h (dest ++ rel) (not_for_others (given_to_root n)))
            _ _ e1 in
        give_all-Held dest l es _ e2 others (
          narrowed (is_link (some n)) l (dest ++ rel) (not_for_others (given_to_root n)) _
            (ended _ two) (λ p. closed _ (given n (c p)))
            (set-Held l (dest ++ rel) (given_to_root n) w (ended _ one) (λ p. given n (c p)) held))

-- Each entry stands below the destination, with its content.
abbrev pub IsCopied : Location → List (Location × Node) → Nodes → Type 0
IsCopied dest es ns =
    All (λ e. (k : Node) × (node_at (dest ++ e.0) ns ≡ some k) × Among e.0 k es) es

-- What is not touched stays copied.
pub IsCopied-same :
    (dest : Location) (es : List (Location × Node)) (ns ms : Nodes)
    → ((rel : Location) → node_at (dest ++ rel) ms ≡ node_at (dest ++ rel) ns)
    → IsCopied dest es ns
    → IsCopied dest es ms
IsCopied-same dest es ns ms alike copied = go es copied
  where
    go :
        (fs : List (Location × Node))
        → All (λ e. (k : Node) × (node_at (dest ++ e.0) ns ≡ some k) × Among e.0 k es) fs
        → All (λ e. (k : Node) × (node_at (dest ++ e.0) ms ≡ some k) × Among e.0 k es) fs
    go [] c = tt
    go ((rel, n) ∷ fs) ((k, at_rel, among), others) = ((k, alike rel ∙ at_rel, among), go fs others)

module _ (h : Host) where
  CopiesAt-Among :
      (dest rel : Location) (all es : List (Location × Node))
      → ((k : Node) → Among rel k es → Among rel k all)
      → CopiesAt h (λ k. Among rel k all) dest (dest ++ rel) es
  CopiesAt-Among dest rel all [] widen = tt
  CopiesAt-Among dest rel all ((r, n) ∷ es) widen = (
    (λ p k made. widen k (
        subst (λ r. Among rel k ((r, n) ∷ es)) (sym (append_cancel dest r rel p))
          (first_one (copied-Alike h n made)))),
    CopiesAt-Among dest rel all es (λ k a. widen k (later_one a)),
  )

  -- What `give_all` goes through.
  abbrev given_list : Option Node → List (Location × Node) → List (Location × Node)
  given_list made below_it = elim made [ none ↦ below_it | some n ↦ ([], n) ∷ below_it ]

  given_list-EntriesAt :
      (Q : Node → Type 0) (dest l : Location) (ns : Nodes) (made : Option Node)
      → node_at dest ns ≡ made
      → AllAt Q l ns
      → EntriesAt Q l dest (given_list made (entries dest ns))
  given_list-EntriesAt Q dest l ns none e a = entries-EntriesAt Q l dest ns a
  given_list-EntriesAt Q dest l ns (some n) e a = (
    (λ p. node_at-AllAt Q l dest ns e a (sym (append-nil dest) ∙ p)),
    entries-EntriesAt Q l dest ns a,
  )

  given_all :
      (dest rel : Location) (es : List (Location × Node)) (u : World) {v : World}
      → (look (λ w. node_at dest w.nodes) >>= λ made.
            look (λ w. entries dest w.nodes) >>= λ below_it.
            give_all h dest (given_list made below_it))
          u
        ≡ (v, ok tt)
      → Held (λ k. Among rel k es) (dest ++ rel) u.nodes
      → Held (λ k. Among rel k es) (dest ++ rel) v.nodes
  unfolding look ◌>>=◌
  given_all dest rel es u e held =
      give_all-Held h (λ k. Among rel k es) (λ k a. Among-given_to_root a)
        (λ k a. Among-not_for_others a) dest (dest ++ rel) _ u e
        (given_list-EntriesAt (λ k. Among rel k es) dest (dest ++ rel) u.nodes
          (node_at dest u.nodes) refl held.every)
        held

  every_entry :
      (dest : Location) (es fs : List (Location × Node)) (ns : Nodes)
      → ((rel : Location) → Names rel fs → Held (λ k. Among rel k es) (dest ++ rel) ns)
      → All (λ e. (k : Node) × (node_at (dest ++ e.0) ns ≡ some k) × Among e.0 k es) fs
  every_entry dest es [] ns held = tt
  every_entry dest es ((rel, n) ∷ fs) ns held =
      ((held rel at_first).there, every_entry dest es fs ns (λ r names. held r (at_later names)))

  -- A copy that has returned has copied each entry.
  pub copy_tree-IsCopied :
      (root dest : Location) (w : World) {v : World}
      → copy_tree h root dest w ≡ (v, ok tt)
      → (top : Node) × IsCopied dest (entries root (put dest top w.nodes)) v.nodes
  unfolding copy_tree
  copy_tree-IsCopied root dest w {v} e =
      let (top, _, e1) = reads-ok (look (λ w. stat w.nodes root)) _ w (Reads-look _) e in
      let (n, _, e2) =
        reads-ok (from (elim top [ none ↦ err os_error | some n ↦ copied h n ])) _ w (Reads-from _)
          e1 in
      let (_, made, e3) = bind-ok (set h dest n) _ w e2 in
      let u = (set h dest n w).0 in
      let at_u : u.nodes ≡ put dest n w.nodes =
        set-nodes h dest n w (ended (set h dest n w) made) in
      let (es, seen, e4) = reads-ok (look (λ w. entries root w.nodes)) _ u (Reads-look _) e3 in
      let same_es : entries root u.nodes ≡ es = look-ok (λ w. entries root w.nodes) u seen in
      let (_, copied_all, e5) = bind-ok (copy_all h dest es) _ u e4 in
      (
        n,
        subst (λ x. IsCopied dest x v.nodes) (sym same_es ∙ ap (entries root) at_u)
            (every_entry dest es es v.nodes (λ rel names. given_all dest rel es _ e5 (
              copy_all-Held_named h (λ k. Among rel k es) dest rel es u
                (ended (copy_all h dest es u) copied_all) (CopiesAt-Among dest rel es es (λ k a. a))
                names))),
      )
