-- ===== src/Admin/Call/Spares.antt =====
-- The parts of tools/admin.py by the locations that they leave as they are.
use nanopc_t6_kvm.Base.{
  ℕ, ◌+◌, ◌≡◌, inl, inr, refl, sym, ◌∙◌, Bool, true, false, List, [], ◌∷◌, ◌++◌, if◌then◌else◌,
  Bool-cases, Result, ok, err,
}
use nanopc_t6_kvm.Admin.{Location, same, Node, node_at, put, delete}
use nanopc_t6_kvm.Admin.Files.{same_iff, node_at-put, node_at-delete}
use nanopc_t6_kvm.Admin.Call.{
  World, Host, AdminError, Do, pure, raise, look, from, raise_if, go_on, ◌>>=◌, change, set, unset,
  rename, run, finally, finally_ends,
}

-- Whatever fails, the call leaves the locations that are not its own as they are.
pub record Spares {A : Type 0} (own : Location → Bool) (call : Do A) : Type 0 where
  pub at :
      (l : Location) → own l ≡ false → (w : World) → node_at l (call w).0.nodes ≡ node_at l w.nodes

module _ {A : Type 0} {own : Location → Bool} where
  pub Spares-pure : (a : A) → Spares own (pure a)
  unfolding pure
  Spares-pure a = record { at = λ l h w. refl }

  pub Spares-raise : (e : AdminError) → Spares own (raise {A = A} e)
  unfolding raise
  Spares-raise e = record { at = λ l h w. refl }

  pub Spares-look : (f : World → A) → Spares own (look f)
  unfolding look
  Spares-look f = record { at = λ l h w. refl }

  pub Spares-from : (r : Result AdminError A) → Spares own (from r)
  unfolding from
  Spares-from r = record { at = λ l h w. refl }

  pub Spares-if :
      (b : Bool) (m n : Do A) → Spares own m → Spares own n → Spares own (if b then m else n)
  Spares-if true m n h k = h
  Spares-if false m n h k = k

module _ {A B : Type 0} {own : Location → Bool} where
  go_on-Spares :
      (r : World × Result AdminError A) (next : A → Do B)
      → ((a : A) → Spares own (next a))
      → (l : Location) → own l ≡ false
      → node_at l (go_on r next).0.nodes ≡ node_at l r.0.nodes
  go_on-Spares (w, ok a) next h l free = (h a).at l free w
  go_on-Spares (w, err e) next h l free = refl

  pub Spares-bind :
      (call : Do A) (next : A → Do B)
      → Spares own call
      → ((a : A) → Spares own (next a))
      → Spares own (call >>= next)
  unfolding ◌>>=◌
  Spares-bind call next h k = record {
    at = λ l free w. go_on-Spares (call w) next k l free ∙ h.at l free w;
  }

-- The same for more locations of its own.
pub Spares-wider :
    {A : Type 0} {own more : Location → Bool} {call : Do A}
    → ((l : Location) → more l ≡ false → own l ≡ false)
    → Spares own call
    → Spares more call
Spares-wider wider s = record { at = λ l free w. s.at l (wider l free) w }

pub Spares-raise_if :
    {own : Location → Bool} (b : Bool) (e : AdminError) → Spares own (raise_if b e)
unfolding raise_if
Spares-raise_if b e = record { at = λ l h w. refl }

own_apart :
    (own : Location → Bool) (k l : Location) → own k ≡ true → own l ≡ false → same k l ≡ false
own_apart own k l a b = elim (Bool-cases (same k l)) [
  | inl e ↦
      let q : own k ≡ false = rw ((same_iff k l).0 e) b in let p : true ≡ false = sym a ∙ q in cc
  | inr e ↦ e
]

-- A change of the nodes that leaves the others alone.
Spares-change :
    {own : Location → Bool} (h : Host) (f : World → World)
    → ((l : Location) → own l ≡ false → (w : World) → node_at l (f w).nodes ≡ node_at l w.nodes)
    → Spares own (change h f)
Spares-change h f leaves = record {
  at = λ l free w. elim (Bool-cases (h.fails w.made)) [
    | inl bad ↦ rw bad refl
    | inr good ↦ rw good (leaves l free (record w { made = w.made + 1 }))
  ];
}

module _ {own : Location → Bool} (h : Host) where
  pub Spares-set : (k : Location) (n : Node) → own k ≡ true → Spares own (set h k n)
  unfolding set
  Spares-set k n mine =
      Spares-change h (λ w. record w { nodes = put k n w.nodes })
        (λ l free w. rw (node_at-put k l n w.nodes, own_apart own k l mine free) refl)

  pub Spares-unset : (k : Location) → own k ≡ true → Spares own (unset h k)
  unfolding unset
  Spares-unset k mine =
      Spares-change h (λ w. record w { nodes = delete k w.nodes })
        (λ l free w. rw (node_at-delete k l w.nodes, own_apart own k l mine free) refl)

  pub Spares-rename :
      (j k : Location) (n : Node) → own j ≡ true → own k ≡ true → Spares own (rename h j k n)
  unfolding rename
  Spares-rename j k n mine mine' =
      Spares-change h (λ w. record w { nodes = put k n (delete j w.nodes) })
        (λ l free w.
          rw
            (
              node_at-put k l n (delete j w.nodes),
              own_apart own k l mine' free,
              node_at-delete j l w.nodes,
              own_apart own j l mine free,
            )
            refl)

  pub Spares-run : (argv : List (List ℕ)) → Spares own (run h argv)
  unfolding run
  Spares-run argv =
      Spares-change h (λ w. record w { commands = w.commands ++ (argv ∷ []) }) (λ l free w. refl)

pub Spares-finally :
    {A : Type 0} {own : Location → Bool} (call : Do A) (last : Do (Unit {0}))
    → Spares own call
    → Spares own last
    → Spares own (finally call last)
unfolding finally
Spares-finally {A} {own} call last c d = record {
  at = λ l free w. ends (call w) l free ∙ c.at l free w;
}
  where
    ends :
        (r : World × Result AdminError A) (l : Location)
        → own l ≡ false
        → node_at l (finally_ends last r).0.nodes ≡ node_at l r.0.nodes
    ends (w, r) l free = then_back (last w) l ∙ d.at l free w
      where
        then_back :
            (s : World × Result AdminError (Unit {0})) (l : Location)
            → node_at l (go_on s (λ _ v. (v, r))).0.nodes ≡ node_at l s.0.nodes
        then_back (v, ok _) l = refl
        then_back (v, err e) l = refl

-- A part that is none but a read of the world, and the call that follows from it.
pub ruleset spares_rules = (
  Spares-pure, Spares-raise, Spares-look, Spares-from, Spares-if, Spares-bind, Spares-raise_if,
  Spares-set, Spares-unset, Spares-rename, Spares-run, Spares-finally,
)
