-- ===== src/Screen.antt =====
-- tools/diagnostics/mouse_screen.py: the picture of the test screen, and the part of it that each frame copies
-- to the frame buffer.
pub mod Drawn
pub mod Shown
pub mod Input
pub mod Scene
use nanopc_t6_kvm.Base.{
  ℕ, ◌+◌, ◌-◌, ◌*◌, ◌/◌, ◌%◌, Bool, false, ◌&&◌, ◌||◌, List, [], ◌∷◌, ◌++◌, Option, none, some, ltb,
  leb, if◌then◌else◌,
}
use nanopc_t6_kvm.Value.{ℤ, pos, negsuc}

-- The colour of each pixel, by its row and its column.
abbrev pub Picture : Type 0
Picture = ℕ → ℕ → ℕ

pub record Rect : Type 0 where
  pub left : ℕ
  pub top : ℕ
  pub right : ℕ
  pub bottom : ℕ

pub record Canvas : Type 0 where
  pub buf : Picture
  pub dirty : List Rect

-- `rect(x,y,w,h,c)`
pub record Call : Type 0 where
  pub x : ℤ
  pub y : ℤ
  pub w : ℕ
  pub h : ℕ
  pub colour : ℕ

abbrev pub in_range : (lo hi n : ℕ) → Bool
in_range lo hi n = leb lo n && ltb n hi

abbrev pub covers : Rect → (row col : ℕ) → Bool
covers d row col = in_range d.top d.bottom row && in_range d.left d.right col

-- `max(0,x)`
abbrev pub from_edge : ℤ → ℕ
from_edge (pos n) = n
from_edge (negsuc n) = 0

abbrev pub lesser : ℕ → ℕ → ℕ
lesser a b = if leb a b then a else b

abbrev pub greater : ℕ → ℕ → ℕ
greater a b = if leb a b then b else a

-- `min(limit,x+w)`, where a negative one is zero.
abbrev pub to_edge : (limit : ℕ) → ℤ → ℕ → ℕ
to_edge limit (pos n) w = lesser limit (n + w)
to_edge limit (negsuc n) w = lesser limit (w - (n + 1))

abbrev pub clipped : (width height : ℕ) → Call → Rect
clipped width height c = record {
  left = from_edge c.x;
  top = from_edge c.y;
  right = to_edge width c.x c.w;
  bottom = to_edge height c.y c.h;
}

abbrev pub is_empty : Rect → Bool
is_empty d = leb d.right d.left || leb d.bottom d.top

abbrev pub fill : Rect → ℕ → Picture → Picture
fill d colour buf row col = if covers d row col then colour else buf row col

unfoldable pub rect : (width height : ℕ) → Call → Canvas → Canvas
rect width height c v =
    let d = clipped width height c in
    if is_empty d then v else record { buf = fill d c.colour v.buf; dirty = v.dirty ++ (d ∷ []) }

unfoldable pub draw : (width height : ℕ) → List Call → Canvas → Canvas
draw width height [] v = v
draw width height (c ∷ cs) v = draw width height cs (rect width height c v)

-- The dots of a character, from the first bit on.
abbrev pub dots : (x y scale colour j : ℕ) → List Bool → List Call
dots x y scale colour j [] = []
dots x y scale colour j (b ∷ bits) =
    let rest = dots x y scale colour (j + 1) bits in
    if b
    then record {
      x = pos (x + j % 5 * scale);
      y = pos (y + j / 5 * scale);
      w = scale;
      h = scale;
      colour = colour;
    }
      ∷ rest
    else rest

-- `text`, by the font's bits of each character.
unfoldable pub text : (font : ℕ → List Bool) → (x y scale colour : ℕ) → List ℕ → List Call
text font x y scale colour [] = []
text font x y scale colour (ch ∷ s) =
    dots x y scale colour 0 (font ch) ++ text font (x + 6 * scale) y scale colour s

-- The columns of a row that were drawn, for each row that has any.
abbrev pub Spans : Type 0
Spans = ℕ → Option (ℕ × ℕ)

abbrev pub in_span : Option (ℕ × ℕ) → ℕ → Bool
in_span none col = false
in_span (some (lo, hi)) col = in_range lo hi col

-- `get(row,(W,0))`, with the columns added.
abbrev pub grow : (width : ℕ) → Option (ℕ × ℕ) → (lo hi : ℕ) → ℕ × ℕ
grow width none lo hi = (lesser width lo, greater 0 hi)
grow width (some (l, h)) lo hi = (lesser l lo, greater h hi)

abbrev pub add_rect : (width : ℕ) → Rect → Spans → Spans
add_rect width d spans row =
    if in_range d.top d.bottom row then some (grow width (spans row) d.left d.right) else spans row

unfoldable pub current_on : (width : ℕ) → Spans → List Rect → Spans
current_on width spans [] = spans
current_on width spans (d ∷ ds) = current_on width (add_rect width d spans) ds

-- `spans`, of the old regions and the current ones.
abbrev pub merge : (width : ℕ) → Option (ℕ × ℕ) → Option (ℕ × ℕ) → Option (ℕ × ℕ)
merge width old none = old
merge width old (some (lo, hi)) = some (grow width old lo hi)

-- `target[a:b]=source[a:b]` for every row's columns.
abbrev pub copy : Spans → (source target : Picture) → Picture
copy spans source target row col =
    if in_span (spans row) col then source row col else target row col

-- `fb` is what is shown.
pub record Screen : Type 0 where
  pub base : Picture
  pub buf : Picture
  pub fb : Picture
  pub regions : Spans

abbrev pub begin : Picture → Screen
begin base = record { base = base; buf = base; fb = base; regions = λ row. none }

-- One frame: the old regions are cleared, the calls drawn, and both regions copied.
unfoldable pub frame : (width height : ℕ) → List Call → Screen → Screen
frame width height calls s =
    let v = draw width height calls (record { buf = copy s.regions s.base s.buf; dirty = [] }) in
    let current = current_on width (λ row. none) v.dirty in
    record s {
      buf = v.buf;
      fb = copy (λ row. merge width (s.regions row) (current row)) v.buf s.fb;
      regions = current;
    }

unfoldable pub frames : (width height : ℕ) → List (List Call) → Screen → Screen
frames width height [] s = s
frames width height (calls ∷ rest) s = frames width height rest (frame width height calls s)
