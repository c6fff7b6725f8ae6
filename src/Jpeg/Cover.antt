-- ===== src/Jpeg/Cover.antt =====
-- The tiles into which src/t6_kvm/kvmd_adapter.py cuts a picture.
use nanopc_t6_kvm.Base.{
  ℕ, zero, suc, ◌+◌, ◌≤◌, ◌<◌, ◌≡◌, inl, inr, refl, ◌∙◌, arith, Bool, true, false, ◌&&◌, List, [],
  ◌∷◌, ◌++◌, map, ltb, leb, if◌then◌else◌, Bool-cases, All, All-append,
}
use nanopc_t6_kvm.Jpeg.{cuts, axis, Tile, tile, tiles_from, tiles}

abbrev within : ℕ → ℕ × ℕ → Bool
within x (start, stop) = leb start x && ltb x stop

abbrev one_if : Bool → ℕ
one_if true = 1
one_if false = 0

-- The cuts that a point lies in.
abbrev hits : ℕ → List (ℕ × ℕ) → ℕ
hits x [] = 0
hits x (c ∷ cs) = one_if (within x c) + hits x cs

abbrev pub holds_pixel : ℕ → ℕ → Tile → Bool
holds_pixel x y t =
    (leb t.x x && ltb x (t.x + t.tile_width)) && (leb t.y y && ltb y (t.y + t.tile_height))

-- The tiles that show a pixel.
abbrev pub shows : ℕ → ℕ → List Tile → ℕ
shows x y [] = 0
shows x y (t ∷ ts) = one_if (holds_pixel x y t) + shows x y ts

hits-cuts :
    (fuel start size x : ℕ)
    → size ≤ start + fuel
    → hits x (cuts fuel start size) ≡ one_if (leb start x && ltb x size)
hits-cuts zero start size x h = ground arith
hits-cuts (suc fuel) start size x h = ground (arith, hits-cuts fuel (start + 2048) size x)

hits-axis : (size x : ℕ) → x < size → hits x (axis size) ≡ 1
unfolding axis
hits-axis size x h = hits-cuts size 0 size x (omega arith) ∙ ground arith

holds_pixel-tile : (x y : ℕ) (r c : ℕ × ℕ) → holds_pixel x y (tile r c) ≡ (within x c && within y r)
holds_pixel-tile x y (top, bottom) (left, right) = ground arith

shows-row :
    (x y : ℕ) (r : ℕ × ℕ) (columns : List (ℕ × ℕ)) (rest : List Tile)
    → shows x y (map (tile r) columns ++ rest)
      ≡ (if within y r then hits x columns else 0) + shows x y rest
shows-row x y r [] rest = ground arith
shows-row x y r (c ∷ columns) rest =
    ground (arith, holds_pixel-tile x y r c, shows-row x y r columns rest)

shows-tiles_from :
    (x y : ℕ) (rows columns : List (ℕ × ℕ))
    → hits x columns ≡ 1
    → shows x y (tiles_from rows columns) ≡ hits y rows
shows-tiles_from x y [] columns h = refl
shows-tiles_from x y (r ∷ rows) columns h =
    shows-row x y r columns (tiles_from rows columns)
    ∙ ground (arith, shows-tiles_from x y rows columns h)

abbrev IsCut : ℕ × ℕ → Type 0
IsCut (start, stop) = (start < stop) × (stop ≤ start + 2048)

cuts-All : (fuel start size : ℕ) → All IsCut (cuts fuel start size)
cuts-All zero start size = tt
cuts-All (suc fuel) start size = elim (Bool-cases (ltb start size)) [
  | inl more ↦ rw more (ground arith, cuts-All fuel (start + 2048) size)
  | inr done ↦ rw done tt
]

abbrev pub IsSmall : Tile → Type 0
IsSmall t =
    (1 ≤ t.tile_width) × (t.tile_width ≤ 2048) × (1 ≤ t.tile_height) × (t.tile_height ≤ 2048)

row-All :
    (r : ℕ × ℕ) (columns : List (ℕ × ℕ))
    → IsCut r
    → All IsCut columns
    → All IsSmall (map (tile r) columns)
row-All r [] h k = tt
row-All (top, bottom) ((left, right) ∷ columns) h (k, ks) = (
  (omega (arith, k), omega (arith, k), omega (arith, h), omega (arith, h)),
  row-All (top, bottom) columns h ks,
)

tiles_from-All :
    (rows columns : List (ℕ × ℕ))
    → All IsCut rows
    → All IsCut columns
    → All IsSmall (tiles_from rows columns)
tiles_from-All [] columns h k = tt
tiles_from-All (r ∷ rows) columns (h, hs) k =
    All-append IsSmall (map (tile r) columns) (tiles_from rows columns) (row-All r columns h k)
      (tiles_from-All rows columns hs k)

-- Every pixel of a picture is shown by exactly one tile, so the loops reach its far edges; and no tile
-- is empty, wider or higher than 2048.
pub shows-tiles :
    (width height x y : ℕ)
    → x < width
    → y < height
    → (shows x y (tiles width height) ≡ 1) × All IsSmall (tiles width height)
unfolding tiles axis
shows-tiles width height x y h k = (
  shows-tiles_from x y (axis height) (axis width) (hits-axis width x h) ∙ hits-axis height y k,
  tiles_from-All (axis height) (axis width) (cuts-All height 0 height) (cuts-All width 0 width),
)
