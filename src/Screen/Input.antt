-- ===== src/Screen/Input.antt =====
-- `inputs` of tools/diagnostics/mouse_screen.py: what the events of the keyboard and the pointer do.
pub mod Inside
use nanopc_t6_kvm.Base.{
  ℕ, zero, suc, ◌+◌, ◌-◌, ◌*◌, ◌/◌, Bool, true, false, ◌&&◌, not, List, [], ◌∷◌, ltb, ◌==◌,
  if◌then◌else◌,
}
use nanopc_t6_kvm.Value.{ℤ, pos, negsuc, zero_ℤ}
use nanopc_t6_kvm.Screen.{lesser, greater, in_range}

-- `state`, with whether the test runs.
pub record Pointer : Type 0 where
  pub x : ℤ
  pub y : ℤ
  pub clicks : ℕ
  pub right : ℕ
  pub wheel : ℤ
  pub keys : ℕ
  pub lastkey : ℕ
  pub down : Bool
  pub drag : Bool
  pub boxx : ℕ
  pub boxy : ℕ
  pub running : Bool

pub record Event : Type 0 where
  pub typ : ℕ
  pub code : ℕ
  pub val : ℤ

abbrev pub first_state : Pointer
first_state = record {
  x = pos 200;
  y = pos 200;
  clicks = 0;
  right = 0;
  wheel = pos 0;
  keys = 0;
  lastkey = 0;
  down = false;
  drag = false;
  boxx = 1000;
  boxy = 450;
  running = true;
}

infixl 20 ◌+ℤ◌
abbrev pub ◌+ℤ◌ : ℤ → ℤ → ℤ
pos a +ℤ pos b = pos (a + b)
pos a +ℤ negsuc b = if ltb b a then pos (a - (b + 1)) else negsuc (b - a)
negsuc a +ℤ pos b = if ltb a b then pos (b - (a + 1)) else negsuc (a - b)
negsuc a +ℤ negsuc b = negsuc (a + b + 1)

abbrev pub below_zero : ℕ → ℤ
below_zero zero = pos 0
below_zero (suc m) = negsuc (m / 32767)

-- `val*(size-1)//32767`, which rounds down.
abbrev pub scaled : (size : ℕ) → ℤ → ℤ
scaled size (pos n) = pos (n * (size - 1) / 32767)
scaled size (negsuc n) = below_zero ((n + 1) * (size - 1))

-- `lo<=z<lo+size`
abbrev pub in_box : (lo size : ℕ) → ℤ → Bool
in_box lo size (pos n) = in_range lo (lo + size) n
in_box lo size (negsuc n) = false

abbrev pub is_one : ℤ → Bool
is_one (pos n) = n == 1
is_one (negsuc n) = false

abbrev pub on_axis : (width height : ℕ) → Event → Pointer → Pointer
on_axis width height e s =
    if e.code == 0
    then record s { x = scaled width e.val }
    else if e.code == 1
    then record s { y = scaled height e.val }
    else s

abbrev pub on_left : Bool → Pointer → Pointer
on_left true s = record s {
  down = true;
  clicks = s.clicks + 1;
  drag = in_box s.boxx 260 s.x && in_box s.boxy 160 s.y;
}
on_left false s = record s { down = false; drag = false }

abbrev pub on_key : Event → Pointer → Pointer
on_key e s =
    if e.code == 272
    then on_left (not (zero_ℤ e.val)) s
    else if e.code == 273 && not (zero_ℤ e.val)
    then record s { right = s.right + 1 }
    else if ltb e.code 256 && is_one e.val
    then record s { keys = s.keys + 1; lastkey = e.code; running = s.running && not (e.code == 1) }
    else s

abbrev pub on_event : (width height : ℕ) → Event → Pointer → Pointer
on_event width height e s =
    if e.typ == 3
    then on_axis width height e s
    else if e.typ == 2 && e.code == 8
    then record s { wheel = s.wheel +ℤ e.val }
    else if e.typ == 1
    then on_key e s
    else s

abbrev pub on_events : (width height : ℕ) → List Event → Pointer → Pointer
on_events width height [] s = s
on_events width height (e ∷ es) s = on_events width height es (on_event width height e s)

-- `max(lo,min(limit,z-shift))`
abbrev pub clamp : (lo limit shift : ℕ) → ℤ → ℕ
clamp lo limit shift (pos n) = greater lo (lesser limit (n - shift))
clamp lo limit shift (negsuc n) = lo

abbrev pub dragged : (width height : ℕ) → Pointer → Pointer
dragged width height s =
    if s.drag
    then record s { boxx = clamp 0 (width - 260) 130 s.x; boxy = clamp 250 (height - 160) 80 s.y }
    else s

-- The events of one read.
unfoldable pub on_read : (width height : ℕ) → List Event → Pointer → Pointer
on_read width height es s = dragged width height (on_events width height es s)

-- The devices that `select` names, one after the other.
unfoldable pub on_round : (width height : ℕ) → List (List Event) → Pointer → Pointer
on_round width height [] s = s
on_round width height (es ∷ rest) s = on_round width height rest (on_read width height es s)

-- The rounds, until the test is left.
unfoldable pub inputs : (width height : ℕ) → List (List (List Event)) → Pointer → Pointer
inputs width height [] s = s
inputs width height (round ∷ rest) s =
    let on = inputs width height rest (on_round width height round s) in if s.running then on else s
