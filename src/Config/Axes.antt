-- ===== src/Config/Axes.antt =====
-- The tests of `Config.validate` of src/t6_kvm/config.py that relate two values, and those of paths.
use nanopc_t6_kvm.Base.{
  ℕ, ◌%◌, ◌≤◌, ◌≡◌, ◌≢◌, ◌↔◌, inl, inr, refl, sym, ap, ◌∙◌, arith, Bool, true, false, ◌||◌, not,
  List, ltb, ◌==◌, ==_iff, Bool-cases, ok, raise_if-eq-ok, not-eq-false,
}
use nanopc_t6_kvm.Value.{
  Value, pos, negsuc, null, boolean, int, float, not_finite, str, arr, obj, truthy,
}
use nanopc_t6_kvm.Config.{
  same_text, is_text, at_most, is_odd, check_axis, check_path, check_socket, differ,
}
use nanopc_t6_kvm.Config.Paths.{is_path, utf8_size}
use nanopc_t6_kvm.Config.Valid.{is_text-eq, is_text_refl, IsAxis, IsPath, IsSocket, raise_if-false}

at_most-eq :
    (v w : Value)
    → at_most v w ≡ true
    → (e : ℕ) × (m : ℕ) × (v ≡ int (pos e)) × (w ≡ int (pos m)) × (e ≤ m)
at_most-eq (int (pos e)) (int (pos m)) h = (e, m, refl, refl, ground arith)
at_most-eq (int (pos e)) (int (negsuc m)) h = cc
at_most-eq (int (pos e)) null h = cc
at_most-eq (int (pos e)) (boolean b) h = cc
at_most-eq (int (pos e)) (float x) h = cc
at_most-eq (int (pos e)) not_finite h = cc
at_most-eq (int (pos e)) (str s) h = cc
at_most-eq (int (pos e)) (arr xs) h = cc
at_most-eq (int (pos e)) (obj fs) h = cc
at_most-eq (int (negsuc e)) w h = cc
at_most-eq null w h = cc
at_most-eq (boolean b) w h = cc
at_most-eq (float x) w h = cc
at_most-eq not_finite w h = cc
at_most-eq (str s) w h = cc
at_most-eq (arr xs) w h = cc
at_most-eq (obj fs) w h = cc

both_even :
    (v w : Value) (e m : ℕ)
    → v ≡ int (pos e)
    → w ≡ int (pos m)
    → (is_odd v || is_odd w) ≡ false
    → (e % 2 ≡ 0) × (m % 2 ≡ 0)
both_even v w e m ev ew h =
    let q : (is_odd (int (pos e)) || is_odd (int (pos m))) ≡ false = rw (ev, ew) at h in
    (ground (arith, q), ground (arith, q))

pub check_axis-IsAxis : (v w : Value) {u : Unit {0}} → check_axis (v, w) ≡ ok u → IsAxis v w
check_axis-IsAxis v w h =
    let (inside, even) = raise_if-eq-ok _ _ _ h in
    let (e, m, ev, ew, le) = at_most-eq v w (not-eq-false inside) in
    let q = raise_if-false (is_odd v || is_odd w) _ even in
    let (even_e, even_m) = both_even v w e m ev ew q in (e, m, ev, ew, le, even_e, even_m)

pub IsAxis-check_axis : (v w : Value) → IsAxis v w → check_axis (v, w) ≡ ok tt
IsAxis-check_axis v w (e, m, ev, ew, le, even_e, even_m) =
    rw (ev, ew) (ground (arith, le, even_e, even_m))

pub check_path-IsPath :
    (name : List ℕ) (v : Value) {u : Unit {0}} → check_path (name, v) ≡ ok u → IsPath v
check_path-IsPath name (str s) h = (s, refl, not-eq-false (raise_if-false (not (is_path s)) _ h))
check_path-IsPath name (int n) h = cc
check_path-IsPath name null h = cc
check_path-IsPath name (boolean b) h = cc
check_path-IsPath name (float x) h = cc
check_path-IsPath name not_finite h = cc
check_path-IsPath name (arr xs) h = cc
check_path-IsPath name (obj fs) h = cc

pub IsPath-check_path : (name : List ℕ) (v : Value) → IsPath v → check_path (name, v) ≡ ok tt
IsPath-check_path name v (s, e, p) = rw (e, p) refl

pub check_socket-IsSocket : (v : Value) {u : Unit {0}} → check_socket v ≡ ok u → IsSocket v
check_socket-IsSocket (str s) h =
    let q = raise_if-false (ltb 100 (utf8_size s)) _ h in (s, refl, ground (arith, q))
check_socket-IsSocket (int n) h = cc
check_socket-IsSocket null h = cc
check_socket-IsSocket (boolean b) h = cc
check_socket-IsSocket (float x) h = cc
check_socket-IsSocket not_finite h = cc
check_socket-IsSocket (arr xs) h = cc
check_socket-IsSocket (obj fs) h = cc

pub IsSocket-check_socket : (v : Value) → IsSocket v → check_socket v ≡ ok tt
IsSocket-check_socket v (s, e, short) =
    let q : ltb 100 (utf8_size s) ≡ false = ground (arith, short) in rw (e, q) refl

false-is_true : false ≡ true → ⊥
false-is_true h = cc

zero_test :
    (P Q : Type 0) (x y : Bool)
    → ((x ≡ true) ↔ P)
    → ((y ≡ true) ↔ Q)
    → (differ (not x) (not y) ≡ false) ↔ (P ↔ Q)
zero_test P Q true true p q = (λ h. (λ _. q.0 refl, λ _. p.0 refl), λ h. refl)
zero_test P Q true false p q = (λ h. cc, λ h. absurd (false-is_true (q.1 (h.0 (p.0 refl)))))
zero_test P Q false true p q = (λ h. cc, λ h. absurd (false-is_true (p.1 (h.1 (q.0 refl)))))
zero_test P Q false false p q = (
  λ h. (λ holds. absurd (false-is_true (p.1 holds)), λ holds. absurd (false-is_true (q.1 holds))),
  λ h. refl,
)

zero_int : (v : Value) (a : ℕ) → v ≡ int (pos a) → ((a == 0) ≡ true) ↔ (v ≡ int (pos 0))
zero_int v a e = (
  λ h. e ∙ ap (λ n. int (pos n)) ((==_iff a 0).0 h),
  λ h. let q : int (pos a) ≡ int (pos 0) = sym e ∙ h in let r : a ≡ 0 = cc in (==_iff a 0).1 r,
)

-- Both sizes are zero, or neither.
pub differ_iff :
    (v w : Value) (a b : ℕ)
    → v ≡ int (pos a)
    → w ≡ int (pos b)
    → (differ (truthy v) (truthy w) ≡ false) ↔ ((v ≡ int (pos 0)) ↔ (w ≡ int (pos 0)))
differ_iff v w a b ev ew =
    let z = zero_test _ _ (a == 0) (b == 0) (zero_int v a ev) (zero_int w b ew) in
    let q : differ (truthy v) (truthy w) ≡ differ (not (a == 0)) (not (b == 0)) =
      rw (ev, ew) refl in
    (λ h. z.0 (sym q ∙ h), λ h. q ∙ z.1 h)

-- Two texts.
pub same_text_iff : (v w : Value) (s : List ℕ) → v ≡ str s → (same_text v w ≡ false) ↔ (v ≢ w)
same_text_iff v w s e = (
  λ h same.
      let q : is_text s w ≡ false = rw e at h in
      false-is_true (sym q ∙ is_text_refl s w (sym same ∙ e)),
  λ apart. elim (Bool-cases (is_text s w)) [
    | inl same ↦ absurd (apart (e ∙ sym (is_text-eq s w same)))
    | inr other ↦ rw e other
  ],
)
