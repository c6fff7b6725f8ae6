-- ===== src/Admin/Call/Removes.antt =====
-- The parts of tools/admin.py that do nothing but remove.
use nanopc_t6_kvm.Base.{
  ℕ, zero, suc, ◌≡◌, ◌⊎◌, inl, inr, refl, sym, ap, ◌∙◌, Bool, true, false, List, [], ◌∷◌, ◌++◌,
  Option, none, some, Bool-cases, Result, ok, err,
}
use nanopc_t6_kvm.Admin.{
  Location, same, Node, link, Nodes, node_at, delete, is_link, step_to, onward, walk, resolve_on,
  resolve,
}
use nanopc_t6_kvm.Admin.Files.{same_iff, node_at-delete}
use nanopc_t6_kvm.Admin.Call.{World, Host, AdminError, Do, go_on, ◌>>=◌, unset, run}
use nanopc_t6_kvm.Admin.Call.Reads.{Reads}

-- Every location is as it was, or it is one of these and nothing is there.
pub record Left (own : Location → Bool) (w v : World) : Type 0 where
  pub at :
      (l : Location)
      → (node_at l v.nodes ≡ node_at l w.nodes) ⊎ ((own l ≡ true) × (node_at l v.nodes ≡ none))

module _ {own : Location → Bool} where
  pub Left-same : (w v : World) → v ≡ w → Left own w v
  Left-same w v e = record { at = λ l. inl (ap (λ x. node_at l x.nodes) e) }

  pub Left-then : (w v x : World) → Left own w v → Left own v x → Left own w x
  Left-then w v x a b = record {
    at = λ l. elim (b.at l) [
      | inr (mine, gone) ↦ inr (mine, gone)
      | inl kept ↦ elim (a.at l) [
        | inl e ↦ inl (kept ∙ e)
        | inr (mine, gone) ↦ inr (mine, kept ∙ gone)
      ]
    ];
  }

  pub Left-wider :
      {more : Location → Bool} (w v : World)
      → ((l : Location) → own l ≡ true → more l ≡ true)
      → Left own w v
      → Left more w v
  Left-wider w v wider a = record {
    at = λ l. elim (a.at l) [ inl e ↦ inl e | inr (mine, gone) ↦ inr (wider l mine, gone) ];
  }

  Left-delete :
      (k : Location) (w v : World) → own k ≡ true → v.nodes ≡ delete k w.nodes → Left own w v
  Left-delete k w v mine e = record {
    at = λ l. elim (Bool-cases (same k l)) [
      | inl here ↦ inr (
        ap own (sym ((same_iff k l).0 here)) ∙ mine,
        rw (e, node_at-delete k l w.nodes, here) refl,
      )
      | inr other ↦ inl (rw (e, node_at-delete k l w.nodes, other) refl)
    ];
  }

  pub Left-unset : (h : Host) (k : Location) (w : World) → own k ≡ true → Left own w (unset h k w).0
  unfolding unset
  Left-unset h k w mine = elim (Bool-cases (h.fails w.made)) [
    | inl bad ↦ rw bad (record { at = λ l. inl refl })
    | inr good ↦ rw good (Left-delete k w _ mine refl)
  ]

  pub Left-run : (h : Host) (argv : List (List ℕ)) (w : World) → Left own w (run h argv w).0
  unfolding run
  Left-run h argv w = elim (Bool-cases (h.fails w.made)) [
    | inl bad ↦ rw bad (record { at = λ l. inl refl })
    | inr good ↦ rw good (record { at = λ l. inl refl })
  ]

module _ {A B : Type 0} {own : Location → Bool} where
  go_on-Left :
      (r : World × Result AdminError A) (next : A → Do B) (w : World)
      → Left own w r.0
      → ((a : A) → Left own r.0 (next a r.0).0)
      → Left own w (go_on r next).0
  go_on-Left (v, ok a) next w s k = Left-then w v (next a v).0 s (k a)
  go_on-Left (v, err e) next w s k = s

  pub Left-bind :
      (call : Do A) (next : A → Do B) (w : World)
      → Left own w (call w).0
      → ((a : A) → Left own (call w).0 (next a (call w).0).0)
      → Left own w ((call >>= next) w).0
  unfolding ◌>>=◌
  Left-bind call next w s k = go_on-Left (call w) next w s k

  -- Behind a read.
  pub Left-read :
      (call : Do A) (next : A → Do B) (w : World)
      → Reads call
      → ((a : A) → Left own w (next a w).0)
      → Left own w ((call >>= next) w).0
  Left-read call next w reads k =
      Left-bind call next w (Left-same w (call w).0 (reads.same_world w))
        (λ a. rw (reads.same_world w) (k a))

-- Where the nodes differ there is no link.
abbrev pub LikeLinks : Nodes → Nodes → Type 0
LikeLinks ms ns =
    (l : Location)
    → (node_at l ms ≡ node_at l ns)
      ⊎ ((is_link (node_at l ms) ≡ false) × (is_link (node_at l ns) ≡ false))

onward-same :
    (restart again : Location → Location → Option Location) (done rest : Location)
    (on : Option Location) (m n : Option Node)
    → ((d r : Location) → restart d r ≡ again d r)
    → (m ≡ n) ⊎ ((is_link m ≡ false) × (is_link n ≡ false))
    → onward restart done rest on m ≡ onward again done rest on n
onward-same restart again done rest on (some (link true l)) n s (inl p) =
    rw (sym p) (s [] (l ++ rest))
onward-same restart again done rest on (some (link false l)) n s (inl p) =
    rw (sym p) (s done (l ++ rest))
onward-same restart again done rest on m n s (inl p) = rw (sym p) refl
onward-same restart again done rest on m n s (inr (p, q)) =
    plain restart m p ∙ sym (plain again n q)
  where
    plain :
        (r : Location → Location → Option Location) (n : Option Node)
        → is_link n ≡ false
        → onward r done rest on n ≡ on
    plain r (some (link true l)) e = cc
    plain r (some (link false l)) e = cc
    plain r n e = refl

walk-same :
    (restart again : Location → Location → Option Location) (ms ns : Nodes) (done l : Location)
    → ((d r : Location) → restart d r ≡ again d r)
    → LikeLinks ms ns
    → walk restart ms done l ≡ walk again ns done l
walk-same restart again ms ns done [] s e = refl
walk-same restart again ms ns done (n ∷ l) s e =
    rw (walk-same restart again ms ns (step_to done n) l s e) (
      onward-same restart again done l (walk again ns (step_to done n) l) _ _ s
        (e (step_to done n)))

resolve_on-same :
    (k : ℕ) (ms ns : Nodes) (done l : Location)
    → LikeLinks ms ns
    → resolve_on k ms done l ≡ resolve_on k ns done l
unfolding resolve_on
resolve_on-same zero ms ns done l e =
    walk-same (λ d r. none) (λ d r. none) ms ns done l (λ d r. refl) e
resolve_on-same (suc k) ms ns done l e =
    walk-same (resolve_on k ms) (resolve_on k ns) ms ns done l
      (λ d r. resolve_on-same k ms ns d r e) e

-- What is no link plays no part on the way.
pub resolve-same : (ms ns : Nodes) (l : Location) → LikeLinks ms ns → resolve ms l ≡ resolve ns l
unfolding resolve
resolve-same ms ns l e = resolve_on-same 40 ms ns [] l e
