-- ===== src/Protocol/Wire/Layout.antt =====
-- The header of src/t6_kvm/protocol.py: packing and unpacking are inverse to one another.
use nanopc_t6_kvm.Base.{
  ℕ, ◌+◌, ◌^◌, ◌<◌, ◌≡◌, ap, ◌∙◌, arith, List, ◌++◌, length, take, drop, All, length-append,
  take-append, drop-append, take-append-drop, length-take, take_all, length-drop, All-take,
  All-drop, IsByte, be, from_be, length-be, from_be-be, be-from_be, from_be-lt, take-be, drop-be,
}
use nanopc_t6_kvm.Protocol.Wire.{Header, pack_header, unpack_header}

pub length-pack_header : (h : Header) → length h.magic_bytes ≡ 4 → length (pack_header h) ≡ 48
unfolding pack_header
length-pack_header h m = simp (length-append, length-be, m)

pub record Fits (h : Header) : Type 0 where
  pub magic_bytes : length h.magic_bytes ≡ 4
  pub version : h.version < 256 ^ 1
  pub kind : h.kind < 256 ^ 1
  pub header_length : h.header_length < 256 ^ 2
  pub payload_size : h.payload_size < 256 ^ 4
  pub flags : h.flags < 256 ^ 4
  pub width : h.width < 256 ^ 4
  pub height : h.height < 256 ^ 4
  pub epoch : h.epoch < 256 ^ 8
  pub sequence : h.sequence < 256 ^ 8
  pub pts_us : h.pts_us < 256 ^ 8

take-be_all : (k n : ℕ) → take k (be k n) ≡ be k n
take-be_all k n = take_all k (be k n) (length-be k n)

pub unpack_header-pack_header : (h : Header) → Fits h → unpack_header (pack_header h) ≡ h
unfolding pack_header unpack_header
unpack_header-pack_header h w = simp (
  take-append,
  drop-append,
  take-be,
  drop-be,
  take-be_all,
  w.magic_bytes,
  from_be-be 1 h.version w.version,
  from_be-be 1 h.kind w.kind,
  from_be-be 2 h.header_length w.header_length,
  from_be-be 4 h.payload_size w.payload_size,
  from_be-be 4 h.flags w.flags,
  from_be-be 4 h.width w.width,
  from_be-be 4 h.height w.height,
  from_be-be 8 h.epoch w.epoch,
  from_be-be 8 h.sequence w.sequence,
  from_be-be 8 h.pts_us w.pts_us,
)

-- A string of `n` bytes.
abbrev pub IsChunk : ℕ → List ℕ → Type 0
IsChunk n s = (length s ≡ n) × All IsByte s

IsChunk-drop : (k n : ℕ) (s : List ℕ) → IsChunk (k + n) s → IsChunk n (drop k s)
IsChunk-drop k n s c = (omega (arith, length-drop k s, c.0), All-drop IsByte k s c.1)

be-take : (k n : ℕ) (s : List ℕ) → IsChunk (k + n) s → be k (from_be (take k s)) ≡ take k s
be-take k n s c =
    be-from_be k (take k s) (All-take IsByte k s c.1) (length-take k s (omega (arith, c.0)))

take-lt : (k n : ℕ) (s : List ℕ) → IsChunk (k + n) s → from_be (take k s) < 256 ^ k
take-lt k n s c =
    from_be-lt k (take k s) (All-take IsByte k s c.1) (length-take k s (omega (arith, c.0)))

-- The bytes of one field, and a tail that packs to the bytes behind them.
be-field :
    (k n : ℕ) (s t : List ℕ) → IsChunk (k + n) s → t ≡ drop k s → be k (from_be (take k s)) ++ t ≡ s
be-field k n s t c e = rw (be-take k n s c, e) (take-append-drop k s)

be-last : (k : ℕ) (s : List ℕ) → IsChunk k s → be k (from_be (take k s)) ≡ s
be-last k s c = rw (take_all k s c.0) (be-from_be k s c.1 c.0)

pub pack_header-unpack_header : (s : List ℕ) → IsChunk 48 s → pack_header (unpack_header s) ≡ s
unfolding pack_header unpack_header
pack_header-unpack_header s c =
    let c1 = IsChunk-drop 4 44 s c in
    let c2 = IsChunk-drop 1 43 _ c1 in
    let c3 = IsChunk-drop 1 42 _ c2 in
    let c4 = IsChunk-drop 2 40 _ c3 in
    let c5 = IsChunk-drop 4 36 _ c4 in
    let c6 = IsChunk-drop 4 32 _ c5 in
    let c7 = IsChunk-drop 4 28 _ c6 in
    let c8 = IsChunk-drop 4 24 _ c7 in
    let c9 = IsChunk-drop 8 16 _ c8 in
    let c10 = IsChunk-drop 8 8 _ c9 in
    let e9 = be-field 8 8 _ _ c9 (be-last 8 _ c10) in
    let e8 = be-field 8 16 _ _ c8 e9 in
    let e7 = be-field 4 24 _ _ c7 e8 in
    let e6 = be-field 4 28 _ _ c6 e7 in
    let e5 = be-field 4 32 _ _ c5 e6 in
    let e4 = be-field 4 36 _ _ c4 e5 in
    let e3 = be-field 2 40 _ _ c3 e4 in
    let e2 = be-field 1 42 _ _ c2 e3 in
    let e1 = be-field 1 43 _ _ c1 e2 in ap (λ t. take 4 s ++ t) e1 ∙ take-append-drop 4 s

-- What was unpacked fits its fields.
pub unpack_header-Fits : (s : List ℕ) → IsChunk 48 s → Fits (unpack_header s)
unfolding unpack_header
unpack_header-Fits s c =
    let c1 = IsChunk-drop 4 44 s c in
    let c2 = IsChunk-drop 1 43 _ c1 in
    let c3 = IsChunk-drop 1 42 _ c2 in
    let c4 = IsChunk-drop 2 40 _ c3 in
    let c5 = IsChunk-drop 4 36 _ c4 in
    let c6 = IsChunk-drop 4 32 _ c5 in
    let c7 = IsChunk-drop 4 28 _ c6 in
    let c8 = IsChunk-drop 4 24 _ c7 in
    let c9 = IsChunk-drop 8 16 _ c8 in
    let c10 = IsChunk-drop 8 8 _ c9 in
    record {
      magic_bytes = length-take 4 s (omega (arith, c.0));
      version = take-lt 1 43 _ c1;
      kind = take-lt 1 42 _ c2;
      header_length = take-lt 2 40 _ c3;
      payload_size = take-lt 4 36 _ c4;
      flags = take-lt 4 32 _ c5;
      width = take-lt 4 28 _ c6;
      height = take-lt 4 24 _ c7;
      epoch = take-lt 8 16 _ c8;
      sequence = take-lt 8 8 _ c9;
      pts_us = take-lt 8 0 _ c10;
    }
