-- ===== src/Admin/Call/Reads.antt =====
-- The parts of tools/admin.py that change nothing, and those that have returned.
use nanopc_t6_kvm.Base.{
  ◌+◌, ◌≡◌, ◌⊎◌, inl, inr, refl, sym, ap, ◌∙◌, Bool, true, false, if◌then◌else◌, Bool-cases, Result,
  ok, err, ok-injective,
}
use nanopc_t6_kvm.Admin.Call.{
  World, Host, AdminError, os_error, Do, pure, raise, look, from, raise_if, go_on, ◌>>=◌, change,
  finally,
}

-- The call changes nothing, whether it returns or raises.
pub record Reads {A : Type 0} (call : Do A) : Type 0 where
  pub same_world : (w : World) → (call w).0 ≡ w

module _ {A : Type 0} where
  pub Reads-pure : (a : A) → Reads (pure a)
  unfolding pure
  Reads-pure a = record { same_world = λ w. refl }

  pub Reads-raise : (e : AdminError) → Reads (raise {A = A} e)
  unfolding raise
  Reads-raise e = record { same_world = λ w. refl }

  pub Reads-look : (f : World → A) → Reads (look f)
  unfolding look
  Reads-look f = record { same_world = λ w. refl }

  pub Reads-from : (r : Result AdminError A) → Reads (from r)
  unfolding from
  Reads-from r = record { same_world = λ w. refl }

  pub Reads-if : (b : Bool) (m n : Do A) → Reads m → Reads n → Reads (if b then m else n)
  Reads-if true m n h k = h
  Reads-if false m n h k = k

pub Reads-raise_if : (b : Bool) (e : AdminError) → Reads (raise_if b e)
unfolding raise_if
Reads-raise_if b e = record { same_world = λ w. refl }

pub ended : {A : Type 0} {a : A} (r : World × Result AdminError A) → r.1 ≡ ok a → r ≡ (r.0, ok a)
ended (w, x) e = ap (λ t. (w, t)) e

module _ {A B : Type 0} where
  go_on-Reads :
      (r : World × Result AdminError A) (next : A → Do B)
      → ((a : A) → Reads (next a))
      → (go_on r next).0 ≡ r.0
  go_on-Reads (w, ok a) next h = (h a).same_world w
  go_on-Reads (w, err e) next h = refl

  pub Reads-bind :
      (call : Do A) (next : A → Do B)
      → Reads call
      → ((a : A) → Reads (next a))
      → Reads (call >>= next)
  unfolding ◌>>=◌
  Reads-bind call next h k = record {
    same_world = λ w. go_on-Reads (call w) next k ∙ h.same_world w;
  }

  go_on-ok :
      (r : World × Result AdminError A) (next : A → Do B) {v : World} {b : B}
      → go_on r next ≡ (v, ok b)
      → (a : A) × (r.1 ≡ ok a) × (next a r.0 ≡ (v, ok b))
  go_on-ok (w, ok a) next e = (a, refl, e)
  go_on-ok (w, err x) next e = let q = ap (λ r. r.1) e in cc

  -- A block that has returned went through its first call.
  pub bind-ok :
      (call : Do A) (next : A → Do B) (w : World) {v : World} {b : B}
      → (call >>= next) w ≡ (v, ok b)
      → (a : A) × ((call w).1 ≡ ok a) × (next a (call w).0 ≡ (v, ok b))
  unfolding ◌>>=◌
  bind-ok call next w e = go_on-ok (call w) next e

  -- The same, where the first call changes nothing.
  pub reads-ok :
      (call : Do A) (next : A → Do B) (w : World) {v : World} {b : B}
      → Reads call
      → (call >>= next) w ≡ (v, ok b)
      → (a : A) × ((call w).1 ≡ ok a) × (next a w ≡ (v, ok b))
  reads-ok call next w reads e =
      let (a, made, rest) = bind-ok call next w e in (a, made, rw (reads.same_world w) at rest)

module _ {A B : Type 0} where
  go_on-cases :
      (r : World × Result AdminError A) (next : A → Do B) (w : World)
      → r.0 ≡ w
      → ((go_on r next).0 ≡ w) ⊎ ((a : A) × (r.1 ≡ ok a) × ((go_on r next).0 ≡ (next a w).0))
  go_on-cases (v, ok a) next w e = inr (a, refl, ap (λ x. (next a x).0) e)
  go_on-cases (v, err x) next w e = inl e

  -- A block whose first call changes nothing has changed nothing, or goes on from there.
  pub reads-cases :
      (call : Do A) (next : A → Do B) (w : World)
      → Reads call
      → (((call >>= next) w).0 ≡ w)
        ⊎ ((a : A) × ((call w).1 ≡ ok a) × (((call >>= next) w).0 ≡ (next a w).0))
  unfolding ◌>>=◌
  reads-cases call next w reads = go_on-cases (call w) next w (reads.same_world w)

  -- The same by the result alone.
  pub read-ok :
      (call : Do A) (next : A → Do B) (w : World) {b : B}
      → Reads call
      → ((call >>= next) w).1 ≡ ok b
      → (a : A) × ((call w).1 ≡ ok a) × ((next a w).1 ≡ ok b)
  read-ok call next w reads e =
      let (a, made, rest) = reads-ok call next w reads (ended ((call >>= next) w) e) in
      (a, made, ap (λ r. r.1) rest)

pub raise_if-ok :
    (b : Bool) (e : AdminError) (w : World) {u : Unit {0}} → (raise_if b e w).1 ≡ ok u → b ≡ false
unfolding raise_if
raise_if-ok true e w h = cc
raise_if-ok false e w h = refl

module _ {A : Type 0} where
  pub from-ok : (r : Result AdminError A) (w : World) {a : A} → (from r w).1 ≡ ok a → r ≡ ok a
  unfolding from
  from-ok r w e = e

  pub look-ok : (f : World → A) (w : World) {a : A} → (look f w).1 ≡ ok a → f w ≡ a
  unfolding look
  look-ok f w e = ok-injective e

pub change-ok :
    (h : Host) (f : World → World) (w : World) {v : World} {u : Unit {0}}
    → change h f w ≡ (v, ok u)
    → v ≡ f (record w { made = w.made + 1 })
change-ok h f w {v} {u} e = elim (Bool-cases (h.fails w.made)) [
  | inl bad ↦
      let q : ◌≡◌ {A = Result AdminError (Unit {0})} (err os_error) (ok u) =
        ap (λ r. r.1) (rw bad at e) in
      cc
  | inr good ↦ sym (ap (λ r. r.0) (rw good at e))
]

pub finally-ok :
    {A : Type 0} (call : Do A) (last : Do (Unit {0})) (w : World) {v : World} {a : A}
    → finally call last w ≡ (v, ok a)
    → ((call w).1 ≡ ok a) × (last (call w).0 ≡ (v, ok tt))
unfolding finally
finally-ok {A} call last w {v} {a} e = ends (call w) (last (call w).0) refl e
  where
    ends :
        (r : World × Result AdminError A) (s : World × Result AdminError (Unit {0}))
        → last r.0 ≡ s
        → go_on s (λ _ x. (x, r.1)) ≡ (v, ok a)
        → (r.1 ≡ ok a) × (last r.0 ≡ (v, ok tt))
    ends r (x, ok _) k e = (ap (λ t. t.1) e, k ∙ ap (λ t. (t, ok tt)) (ap (λ t. t.0) e))
    ends r (x, err y) k e = let q = ap (λ t. t.1) e in cc

pub ruleset reads_rules =
    (Reads-pure, Reads-raise, Reads-look, Reads-from, Reads-if, Reads-bind, Reads-raise_if)
