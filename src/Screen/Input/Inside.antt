-- ===== src/Screen/Input/Inside.antt =====
-- Where the box of the test screen can be.
use nanopc_t6_kvm.Base.{
  ℕ, ◌+◌, ◌-◌, ◌≤◌, ◌≡◌, inl, inr, refl, sym, ◌∙◌, arith, Bool, true, false, ◌&&◌, not, List, [],
  ◌∷◌, ltb, ◌==◌, if◌then◌else◌, Bool-cases,
}
use mathlib.Core.Path.{subst}
use nanopc_t6_kvm.Value.{ℤ, pos, negsuc, zero_ℤ}
use nanopc_t6_kvm.Screen.Input.{
  Pointer, Event, first_state, is_one, on_left, on_event, on_events, clamp, dragged, on_read,
  on_round, inputs,
}

-- The box is on the screen, below the texts.
pub record IsInside (width height : ℕ) (s : Pointer) : Type 0 where
  pub by_x : s.boxx + 260 ≤ width
  pub from_y : 250 ≤ s.boxy
  pub by_y : s.boxy + 160 ≤ height

-- An event moves no box.
SameBox : Pointer → Pointer → Type 0
SameBox s t = (s.boxx ≡ t.boxx) × (s.boxy ≡ t.boxy)

if-SameBox :
    (b : Bool) (s t u : Pointer) → SameBox s u → SameBox t u → SameBox (if b then s else t) u
unfolding SameBox
if-SameBox true s t u h k = h
if-SameBox false s t u h k = k

on_left-SameBox : (b : Bool) (s : Pointer) → SameBox (on_left b s) s
unfolding SameBox
on_left-SameBox true s = (refl, refl)
on_left-SameBox false s = (refl, refl)

on_event-SameBox :
    (width height : ℕ) (e : Event) (s : Pointer) → SameBox (on_event width height e s) s
unfolding SameBox
on_event-SameBox width height e s =
    if-SameBox (e.typ == 3) _ _ s
      (if-SameBox (e.code == 0) _ _ s (refl, refl)
        (if-SameBox (e.code == 1) _ _ s (refl, refl) (refl, refl)))
      (if-SameBox (e.typ == 2 && e.code == 8) _ _ s (refl, refl)
        (if-SameBox (e.typ == 1) _ _ s
          (if-SameBox (e.code == 272) _ _ s (on_left-SameBox (not (zero_ℤ e.val)) s) (
            if-SameBox (e.code == 273 && not (zero_ℤ e.val)) _ _ s (refl, refl)
              (if-SameBox (ltb e.code 256 && is_one e.val) _ _ s (refl, refl) (refl, refl))))
          (refl, refl)))

on_events-SameBox :
    (width height : ℕ) (es : List Event) (s : Pointer) → SameBox (on_events width height es s) s
unfolding SameBox
on_events-SameBox width height [] s = (refl, refl)
on_events-SameBox width height (e ∷ es) s =
    let (a, b) = on_events-SameBox width height es (on_event width height e s) in
    let (c, d) = on_event-SameBox width height e s in (a ∙ c, b ∙ d)

clamp-in_range :
    (lo limit shift : ℕ) (z : ℤ)
    → lo ≤ limit
    → (lo ≤ clamp lo limit shift z) × (clamp lo limit shift z ≤ limit)
clamp-in_range lo limit shift (pos n) h = ground arith
clamp-in_range lo limit shift (negsuc n) h = (omega arith, h)

dragged-IsInside :
    (width height : ℕ) (s : Pointer)
    → 260 ≤ width
    → 410 ≤ height
    → IsInside width height s
    → IsInside width height (dragged width height s)
dragged-IsInside width height s wide high inside = elim (Bool-cases s.drag) [
  | inr e ↦ subst (IsInside width height) (sym (kept s.drag e)) inside
  | inl e ↦ subst (IsInside width height) (sym (moved s.drag e)) (record {
    by_x = omega (arith, (clamp-in_range 0 (width - 260) 130 s.x (omega arith)).1);
    from_y = (clamp-in_range 250 (height - 160) 80 s.y (omega arith)).0;
    by_y = omega (arith, (clamp-in_range 250 (height - 160) 80 s.y (omega arith)).1);
  })
]
  where
    new_box : Pointer
    new_box = record s {
      boxx = clamp 0 (width - 260) 130 s.x;
      boxy = clamp 250 (height - 160) 80 s.y;
    }

    kept : (b : Bool) → b ≡ false → (if b then new_box else s) ≡ s
    kept true e = cc
    kept false e = refl

    moved : (b : Bool) → b ≡ true → (if b then new_box else s) ≡ new_box
    moved true e = refl
    moved false e = cc

on_read-IsInside :
    (width height : ℕ) (es : List Event) (s : Pointer)
    → IsInside width height s
    → IsInside width height (on_read width height es s)
unfolding on_read SameBox
on_read-IsInside width height es s inside =
    let (a, b) = on_events-SameBox width height es s in
    dragged-IsInside width height (on_events width height es s) (omega (arith, inside.by_x))
      (omega (arith, inside.from_y, inside.by_y))
      (record { by_x = rw a inside.by_x; from_y = rw b inside.from_y; by_y = rw b inside.by_y })

either : (P : Pointer → Type 0) (b : Bool) (s t : Pointer) → P s → P t → P (if b then s else t)
either P true s t p q = p
either P false s t p q = q

on_round-IsInside :
    (width height : ℕ) (ess : List (List Event)) (s : Pointer)
    → IsInside width height s
    → IsInside width height (on_round width height ess s)
unfolding on_round
on_round-IsInside width height [] s inside = inside
on_round-IsInside width height (es ∷ ess) s inside =
    on_round-IsInside width height ess (on_read width height es s)
      (on_read-IsInside width height es s inside)

rounds-IsInside :
    (width height : ℕ) (rounds : List (List (List Event))) (s : Pointer)
    → IsInside width height s
    → IsInside width height (inputs width height rounds s)
unfolding inputs
rounds-IsInside width height [] s inside = inside
rounds-IsInside width height (round ∷ rounds) s inside =
    either (IsInside width height) s.running _ s
      (rounds-IsInside width height rounds (on_round width height round s)
        (on_round-IsInside width height round s inside))
      inside

-- On a screen of at least 1260 by 610 pixels the box is, after any events of the pointer and the keyboard in
-- any number of reads, on the screen and below the texts.
pub inputs-IsInside :
    (width height : ℕ) (rounds : List (List (List Event)))
    → 1260 ≤ width
    → 610 ≤ height
    → IsInside width height (inputs width height rounds first_state)
inputs-IsInside width height rounds wide high =
    rounds-IsInside width height rounds first_state
      (record { by_x = wide; from_y = omega arith; by_y = high })
