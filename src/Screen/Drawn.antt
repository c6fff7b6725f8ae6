-- ===== src/Screen/Drawn.antt =====
-- What the calls of the test screen draw, and that the spans have it.
use nanopc_t6_kvm.Base.{
  ℕ, ◌≡◌, ◌⊎◌, inl, inr, refl, sym, ap, ◌∙◌, arith, Bool, true, false, ◌&&◌, ◌||◌, List, [], ◌∷◌,
  ◌++◌, Option, none, some, if◌then◌else◌, Bool-cases,
}
use nanopc_t6_kvm.Screen.{
  Picture, Rect, Canvas, Call, in_range, covers, clipped, is_empty, fill, rect, draw, Spans,
  in_span, grow, add_rect, current_on, merge,
}

-- A pixel in one of the rectangles.
abbrev pub in_any : List Rect → (row col : ℕ) → Bool
in_any [] row col = false
in_any (d ∷ ds) row col = covers d row col || in_any ds row col

grow-in_span :
    (width : ℕ) (o : Option (ℕ × ℕ)) (lo hi col : ℕ)
    → (in_span o col ≡ true) ⊎ (in_range lo hi col ≡ true)
    → in_span (some (grow width o lo hi)) col ≡ true
grow-in_span width none lo hi col (inl e) = cc
grow-in_span width none lo hi col (inr e) = ground arith
grow-in_span width (some (l, h)) lo hi col (inl e) = ground arith
grow-in_span width (some (l, h)) lo hi col (inr e) = ground arith

-- Pixels of the spans that were there, or of one of the rectangles, are in the spans.
pub current_on-in_span :
    (width : ℕ) (spans : Spans) (ds : List Rect) (row col : ℕ)
    → (in_span (spans row) col ≡ true) ⊎ (in_any ds row col ≡ true)
    → in_span (current_on width spans ds row) col ≡ true
unfolding current_on
current_on-in_span width spans [] row col (inl e) = e
current_on-in_span width spans [] row col (inr e) = cc
current_on-in_span width spans (d ∷ ds) row col (inl e) =
    current_on-in_span width (add_rect width d spans) ds row col
      (inl (kept (in_range d.top d.bottom row)))
  where
    kept :
        (b : Bool)
        → in_span (if b then some (grow width (spans row) d.left d.right) else spans row) col ≡ true
    kept true = grow-in_span width (spans row) d.left d.right col (inl e)
    kept false = e
current_on-in_span width spans (d ∷ ds) row col (inr e) = elim (Bool-cases (covers d row col)) [
  | inl here ↦
      current_on-in_span width (add_rect width d spans) ds row col
        (inl (added (in_range d.top d.bottom row) here))
  | inr other ↦ current_on-in_span width (add_rect width d spans) ds row col (inr (rw other at e))
]
  where
    added :
        (b : Bool)
        → (b && in_range d.left d.right col) ≡ true
        → in_span (if b then some (grow width (spans row) d.left d.right) else spans row) col ≡ true
    added true e = grow-in_span width (spans row) d.left d.right col (inr e)
    added false e = cc

pub merge-in_span :
    (width : ℕ) (old new : Option (ℕ × ℕ)) (col : ℕ)
    → (in_span old col ≡ true) ⊎ (in_span new col ≡ true)
    → in_span (merge width old new) col ≡ true
merge-in_span width old none col (inl e) = e
merge-in_span width old none col (inr e) = cc
merge-in_span width old (some (lo, hi)) col e = grow-in_span width old lo hi col e

-- The picture that the calls make of another one.
abbrev pub painted : (width height : ℕ) → List Call → Picture → Picture
painted width height [] p = p
painted width height (c ∷ cs) p =
    painted width height cs
      (let d = clipped width height c in if is_empty d then p else fill d c.colour p)

in_any-append :
    (ds es : List Rect) (row col : ℕ)
    → in_any (ds ++ es) row col ≡ (in_any ds row col || in_any es row col)
in_any-append [] es row col = refl
in_any-append (d ∷ ds) es row col = elim (Bool-cases (covers d row col)) [
  | inl e ↦ rw e refl
  | inr e ↦ rw e (in_any-append ds es row col)
]

or_none : (a b : Bool) → (a || b) ≡ false → (a ≡ false) × (b ≡ false)
or_none true b e = cc
or_none false b e = (refl, e)

module _ (width height : ℕ) where
  rect-outside :
      (c : Call) (v : Canvas) (row col : ℕ)
      → in_any (rect width height c v).dirty row col ≡ false
      → ((rect width height c v).buf row col ≡ v.buf row col) × (in_any v.dirty row col ≡ false)
  unfolding rect
  rect-outside c v row col e = elim (Bool-cases (is_empty (clipped width height c))) [
    | inl nothing ↦ rw nothing (refl, rw nothing at e)
    | inr drawn ↦
        let all =
          sym (in_any-append v.dirty (clipped width height c ∷ []) row col) ∙ rw drawn at e in
        let (before, new) = or_none (in_any v.dirty row col) _ all in
        let (outside, _) = or_none (covers (clipped width height c) row col) _ new in
        rw (drawn, outside) (refl, before)
  ]

  pub draw-outside :
      (cs : List Call) (v : Canvas) (row col : ℕ)
      → in_any (draw width height cs v).dirty row col ≡ false
      → ((draw width height cs v).buf row col ≡ v.buf row col) × (in_any v.dirty row col ≡ false)
  unfolding draw
  draw-outside [] v row col e = (refl, e)
  draw-outside (c ∷ cs) v row col e =
      let (kept, free) = draw-outside cs (rect width height c v) row col e in
      let (same_pixel, before) = rect-outside c v row col free in (kept ∙ same_pixel, before)

  rect-painted :
      (c : Call) (v : Canvas)
      → (rect width height c v).buf ≡ (
          if is_empty (clipped width height c)
          then v.buf
          else fill (clipped width height c) c.colour v.buf)
  unfolding rect
  rect-painted c v = elim (Bool-cases (is_empty (clipped width height c))) [
    | inl e ↦ rw e refl
    | inr e ↦ rw e refl
  ]

  pub draw-painted :
      (cs : List Call) (v : Canvas) → (draw width height cs v).buf ≡ painted width height cs v.buf
  unfolding draw
  draw-painted [] v = refl
  draw-painted (c ∷ cs) v =
      draw-painted cs (rect width height c v) ∙ ap (painted width height cs) (rect-painted c v)
