-- ===== src/Protocol/Wire/RoundTrip.antt =====
-- `read_frame` of src/t6_kvm/protocol.py reads what `Frame.pack` writes, and nothing else.
use nanopc_t6_kvm.Base.{
  ℕ, ◌≡◌, ◌⊎◌, inl, inr, refl, sym, ap, ◌∙◌, arith, true, false, ◌&&◌, not, List, ◌++◌, ltb, leb,
  Bool-cases, length, take, drop, All, length-append, take-append, drop-append, take-append-drop,
  length-take, All-left, list_eq_iff, ok, >>=-eq-ok, raise_if-eq-ok, ok-injective, not-eq-false,
  IsByte,
}
use nanopc_t6_kvm.Value.{Json}
use nanopc_t6_kvm.Protocol.{magic, au, status_kind, Frame}
use nanopc_t6_kvm.Protocol.Validate.{validate}
use nanopc_t6_kvm.Protocol.Validate.Accepts.{IsValid, IsAu, IsStatus, validate_iff}
use nanopc_t6_kvm.Protocol.Wire.{
  Header, pack_header, fits, unpack_header, header_of, frame_of, pack, readexactly, known_header,
  payload_limit, read_frame,
}
use nanopc_t6_kvm.Protocol.Wire.Layout.{
  Fits, IsChunk, length-pack_header, unpack_header-pack_header, pack_header-unpack_header,
  unpack_header-Fits,
}
use mathlib.Core.List.{append_assoc}

pub readexactly-append :
    (n : ℕ) (xs ys : List ℕ) → length xs ≡ n → readexactly n (xs ++ ys) ≡ ok (xs, ys)
readexactly-append n xs ys h =
    let enough : leb n (length (xs ++ ys)) ≡ true = ground (arith, length-append xs ys) in
    rw (enough, take-append n xs ys h, drop-append n xs ys h) refl

fits-Fits : (f : Frame) → fits (header_of f) ≡ true → Fits (header_of f)
fits-Fits f h = ground arith

content_limit :
    (json : Json) (f : Frame)
    → IsValid json f
    → (known_header (header_of f) ≡ true)
      × (not (ltb 0 (length f.payload) && leb (length f.payload) (payload_limit f.kind)) ≡ false)
content_limit json f v = go v.content
  where
    go :
        ((f.kind ≡ au) × IsAu f) ⊎ ((f.kind ≡ status_kind) × IsStatus json f)
        → (known_header (header_of f) ≡ true)
          × (not (ltb 0 (length f.payload) && leb (length f.payload) (payload_limit f.kind))
              ≡ false)
    go (inl (k, a)) = ground (arith, v.nonempty, v.bounded)
    go (inr (k, s)) = ground (arith, v.nonempty, s.short)

-- What `pack` returned, in parts.
pub pack-eq-ok :
    (json : Json) (f : Frame) {bytes : List ℕ}
    → pack json f ≡ ok bytes
    → (validate json f ≡ ok f)
      × (fits (header_of f) ≡ true)
      × (bytes ≡ pack_header (header_of f) ++ f.payload)
unfolding pack
pack-eq-ok json f h =
    let (g, valid, h1) = >>=-eq-ok (validate json f) _ h in
    let (fit, same) = raise_if-eq-ok _ _ _ h1 in
    (
      valid ∙ ap ok (sym ((validate_iff json f g).0 valid).0),
      not-eq-false fit,
      sym (ok-injective same),
    )

-- Every frame that `pack` encodes is read back unchanged from a stream that begins with its bytes,
-- and the stream goes on right behind them.
pub read_frame-pack :
    (json : Json) (f : Frame) (bytes rest : List ℕ)
    → pack json f ≡ ok bytes
    → read_frame json (bytes ++ rest) ≡ ok (f, rest)
unfolding read_frame
read_frame-pack json f bytes rest h =
    let (valid, fit, same) = pack-eq-ok json f h in
    let (known, sized) = content_limit json f ((validate_iff json f f).0 valid).1 in
    let split : bytes ++ rest ≡ pack_header (header_of f) ++ (f.payload ++ rest) =
      rw same (append_assoc (pack_header (header_of f)) f.payload rest) in
    rw
      (
        split,
        readexactly-append 48 (pack_header (header_of f)) (f.payload ++ rest)
            (length-pack_header (header_of f) refl),
        unpack_header-pack_header (header_of f) (fits-Fits f fit),
        known,
        sized,
        readexactly-append (length f.payload) f.payload rest refl,
        valid,
      )
      refl

abbrev Reads : ℕ → List ℕ → List ℕ × List ℕ → Type 0
Reads n s r = (length r.0 ≡ n) × (s ≡ r.0 ++ r.1)

readexactly-eq-ok :
    (n : ℕ) (s : List ℕ) {r : List ℕ × List ℕ} → readexactly n s ≡ ok r → Reads n s r
readexactly-eq-ok n s {r} h = elim (Bool-cases (leb n (length s))) [
  | inl enough ↦
      let same : (take n s, drop n s) ≡ r = ok-injective (rw enough at h) in
      rw (← same) (length-take n s (ground arith), sym (take-append-drop n s))
  | inr short ↦ absurd (ground arith)
]

-- A frame whose header was just read packs to that header again.
header_of-frame_of :
    (h : Header) (payload : List ℕ)
    → known_header h ≡ true
    → length payload ≡ h.payload_size
    → header_of (frame_of h payload) ≡ h
header_of-frame_of h payload known size =
    let m = (list_eq_iff h.magic_bytes magic).0 in ground (arith, m)

fits-true : (h : Header) → Fits h → fits h ≡ true
fits-true h w = ground arith

-- A frame that was read: it is valid, and its header packs to the bytes read.
pack_read :
    (json : Json) (header payload : List ℕ) (f : Frame)
    → IsChunk 48 header
    → known_header (unpack_header header) ≡ true
    → length payload ≡ (unpack_header header).payload_size
    → validate json f ≡ ok f
    → frame_of (unpack_header header) payload ≡ f
    → pack json f ≡ ok (header ++ payload)
unfolding pack
pack_read json header payload f c known size valid same =
    let again : header_of f ≡ unpack_header header =
      rw (← same) (header_of-frame_of (unpack_header header) payload known size) in
    let fit : fits (header_of f) ≡ true =
      ap fits again ∙ fits-true (unpack_header header) (unpack_header-Fits header c) in
    let whole : pack_header (header_of f) ≡ header =
      ap pack_header again ∙ pack_header-unpack_header header c in
    let body : f.payload ≡ payload = rw (← same) refl in rw (valid, fit, whole, body) refl

-- A successful `read_frame`, in parts.
pub record IsRead (json : Json) (stream rest : List ℕ) (f : Frame) : Type 0 where
  pub header : List ℕ
  pub payload : List ℕ
  pub header_length : length header ≡ 48
  pub known : known_header (unpack_header header) ≡ true
  pub payload_length : length payload ≡ (unpack_header header).payload_size
  pub valid : validate json (frame_of (unpack_header header) payload) ≡ ok f
  pub split : stream ≡ header ++ (payload ++ rest)

pub read_frame-IsRead :
    (json : Json) (stream rest : List ℕ) (f : Frame)
    → read_frame json stream ≡ ok (f, rest)
    → IsRead json stream rest f
unfolding read_frame
read_frame-IsRead json stream rest f h =
    let (p, cut, h1) = >>=-eq-ok (readexactly 48 stream) _ h in
    let (len, whole) = readexactly-eq-ok 48 stream cut in
    let (known, h2) = raise_if-eq-ok _ _ _ h1 in
    let (sized, h3) = raise_if-eq-ok _ _ _ h2 in
    let (q, cut', h4) = >>=-eq-ok (readexactly (unpack_header p.0).payload_size p.1) _ h3 in
    let (len', whole') = readexactly-eq-ok (unpack_header p.0).payload_size p.1 cut' in
    let (g, valid, last) = >>=-eq-ok (validate json (frame_of (unpack_header p.0) q.0)) _ h4 in
    let out : ◌≡◌ {A = Frame × List ℕ} (g, q.1) (f, rest) = ok-injective last in
    record {
      header = p.0;
      payload = q.0;
      header_length = len;
      known = not-eq-false known;
      payload_length = len';
      valid = valid ∙ ap ok (ap (λ t. t.0) out);
      split = whole ∙ ap (λ t. p.0 ++ t) (whole' ∙ ap (λ t. q.0 ++ t.1) out);
    }

-- Whatever `read_frame` accepts is the encoding of the frame that it returns: the stream began with
-- the bytes that `pack` makes of it. (A stream is made of bytes.)
pub pack-read_frame :
    (json : Json) (stream rest : List ℕ) (f : Frame)
    → All IsByte stream
    → read_frame json stream ≡ ok (f, rest)
    → (bytes : List ℕ) × (pack json f ≡ ok bytes) × (stream ≡ bytes ++ rest)
pack-read_frame json stream rest f all h =
    let r = read_frame-IsRead json stream rest f h in
    let header_bytes : All IsByte r.header =
      All-left IsByte r.header (r.payload ++ rest) (rw (r.split) at all) in
    let (same, _) = (validate_iff json (frame_of (unpack_header r.header) r.payload) f).0 r.valid in
    (
      r.header ++ r.payload,
      pack_read json r.header r.payload f (r.header_length, header_bytes) r.known r.payload_length
          (ap (validate json) (sym same) ∙ r.valid) same,
      r.split ∙ sym (append_assoc r.header r.payload rest),
    )
