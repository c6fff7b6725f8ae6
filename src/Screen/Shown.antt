-- ===== src/Screen/Shown.antt =====
-- What the test screen shows.
use nanopc_t6_kvm.Base.{
  ℕ, ◌≡◌, ◌⊎◌, inl, inr, refl, sym, ap, ◌∙◌, true, false, List, [], ◌∷◌, none, Bool-cases,
}
use nanopc_t6_kvm.Screen.{
  Picture, Rect, Canvas, Call, draw, in_span, current_on, merge, copy, Screen, begin, frame, frames,
}
use nanopc_t6_kvm.Screen.Drawn.{
  in_any, painted, current_on-in_span, merge-in_span, draw-outside, draw-painted,
}

-- Off the regions the picture is the base, and what is shown is the picture.
pub record IsExact (s : Screen) : Type 0 where
  pub clear :
      (row col : ℕ) → (in_span (s.regions row) col ≡ true) ⊎ (s.buf row col ≡ s.base row col)
  pub shown : (row col : ℕ) → s.fb row col ≡ s.buf row col

begin-IsExact : (base : Picture) → IsExact (begin base)
begin-IsExact base = record { clear = λ row col. inr refl; shown = λ row col. refl }

cleared : (s : Screen) → IsExact s → copy s.regions s.base s.buf ≡ s.base
cleared s exact i row col = pixel row col i
  where
    pixel : (row col : ℕ) → copy s.regions s.base s.buf row col ≡ s.base row col
    pixel row col = elim (Bool-cases (in_span (s.regions row) col)) [
      | inl e ↦ rw e refl
      | inr e ↦ elim (exact.clear row col) [
        | inl k ↦ let q : false ≡ true = sym e ∙ k in cc
        | inr k ↦ rw e k
      ]
    ]

module _ (width height : ℕ) (calls : List Call) (s : Screen) (exact : IsExact s) where
  abbrev cleared_canvas : Canvas
  cleared_canvas = record { buf = copy s.regions s.base s.buf; dirty = [] }

  abbrev now_dirty : List Rect
  now_dirty = (draw width height calls cleared_canvas).dirty

  -- The new picture off the new regions.
  off_current :
      (row col : ℕ)
      → in_span (current_on width (λ row. none) now_dirty row) col ≡ false
      → (draw width height calls cleared_canvas).buf row col ≡ s.base row col
  off_current row col e = elim (Bool-cases (in_any now_dirty row col)) [
    | inl k ↦ let q = sym e ∙ current_on-in_span width (λ row. none) now_dirty row col (inr k) in cc
    | inr k ↦
        (draw-outside width height calls cleared_canvas row col k).0
        ∙ ap (λ p. p row col) (cleared s exact)
  ]

  frame_painted : (frame width height calls s).buf ≡ painted width height calls s.base
  unfolding frame
  frame_painted =
      draw-painted width height calls cleared_canvas
      ∙ ap (painted width height calls) (cleared s exact)

  -- Off both regions.
  off_both :
      (row col : ℕ)
      → in_span (merge width (s.regions row) (current_on width (λ row. none) now_dirty row)) col
        ≡ false
      → s.fb row col ≡ (draw width height calls cleared_canvas).buf row col
  off_both row col e = elim (Bool-cases (in_span (s.regions row) col)) [
    | inl k ↦
        let q =
          sym e
          ∙ merge-in_span width (s.regions row) (current_on width (λ row. none) now_dirty row) col
              (inl k) in
        cc
    | inr k ↦ elim (Bool-cases (in_span (current_on width (λ row. none) now_dirty row) col)) [
      | inl j ↦
          let q =
            sym e
            ∙ merge-in_span width (s.regions row) (current_on width (λ row. none) now_dirty row) col
                (inr j) in
          cc
      | inr j ↦ elim (exact.clear row col) [
        | inl i ↦ let q : false ≡ true = sym k ∙ i in cc
        | inr i ↦ exact.shown row col ∙ i ∙ sym (off_current row col j)
      ]
    ]
  ]

  frame-IsExact : IsExact (frame width height calls s)
  unfolding frame
  frame-IsExact = record {
    clear = λ row col.
        elim (Bool-cases (in_span (current_on width (λ row. none) now_dirty row) col)) [
          | inl e ↦ inl e
          | inr e ↦ inr (off_current row col e)
        ];
    shown = λ row col.
        elim (Bool-cases (
          in_span (merge width (s.regions row) (current_on width (λ row. none) now_dirty row))
            col)) [ inl e ↦ rw e refl | inr e ↦ rw e (off_both row col e) ];
  }

frame-base :
    (width height : ℕ) (calls : List Call) (s : Screen) → (frame width height calls s).base ≡ s.base
unfolding frame
frame-base width height calls s = refl

frames-IsExact :
    (width height : ℕ) (css : List (List Call)) (s : Screen)
    → IsExact s
    → IsExact (frames width height css s) × ((frames width height css s).base ≡ s.base)
unfolding frames
frames-IsExact width height [] s exact = (exact, refl)
frames-IsExact width height (cs ∷ css) s exact =
    let (on, same_base) =
      frames-IsExact width height css (frame width height cs s)
        (frame-IsExact width height cs s exact) in
    (on, same_base ∙ frame-base width height cs s)

-- Behind any frames, with whatever calls each draws, the frame buffer shows at every pixel what the calls of the
-- last frame paint on the base picture: nothing of a frame before it is left, and nothing of it is missing.
pub frame_shows :
    (width height : ℕ) (base : Picture) (css : List (List Call)) (calls : List Call) (row col : ℕ)
    → (frame width height calls (frames width height css (begin base))).fb row col
      ≡ painted width height calls base row col
frame_shows width height base css calls row col =
    let (exact, same_base) = frames-IsExact width height css (begin base) (begin-IsExact base) in
    (frame-IsExact width height calls (frames width height css (begin base)) exact).shown row col
    ∙ ap (λ p. p row col)
        (frame_painted width height calls (frames width height css (begin base)) exact)
    ∙ ap (λ p. painted width height calls p row col) same_base
