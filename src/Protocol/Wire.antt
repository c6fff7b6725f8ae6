-- ===== src/Protocol/Wire.antt =====
-- `Frame.pack` and `read_frame` of src/t6_kvm/protocol.py: a 48-byte header and a payload.
pub mod Layout
pub mod RoundTrip
pub mod Untrusted
use nanopc_t6_kvm.Base.{
  ℕ, ◌^◌, Bool, ◌&&◌, ◌||◌, not, List, ◌++◌, ltb, leb, ◌==◌, if◌then◌else◌, length, take, drop,
  list_eq, Result, ok, err, ◌>>=◌, ◌>>◌, raise_if, be, from_be,
}
use nanopc_t6_kvm.Value.{Json}
use nanopc_t6_kvm.Protocol.{
  magic, au, status_kind, header_size, max_payload, ProtocolError, payload_length, bad_header,
  struct_error, incomplete_read, Frame,
}
use nanopc_t6_kvm.Protocol.Validate.{validate}

-- The fields that `HEADER.unpack` returns.
pub record Header : Type 0 where
  pub magic_bytes : List ℕ
  pub version : ℕ
  pub kind : ℕ
  pub header_length : ℕ
  pub payload_size : ℕ
  pub flags : ℕ
  pub width : ℕ
  pub height : ℕ
  pub epoch : ℕ
  pub sequence : ℕ
  pub pts_us : ℕ

-- `struct.Struct("!4sBBHIIIIQQQ").pack`, on fields that fit.
unfoldable pub pack_header : Header → List ℕ
pack_header h =
    h.magic_bytes
    ++ (be 1 h.version
        ++ (be 1 h.kind
            ++ (be 2 h.header_length
                ++ (be 4 h.payload_size
                    ++ (be 4 h.flags
                        ++ (be 4 h.width
                            ++ (be 4 h.height
                                ++ (be 8 h.epoch ++ (be 8 h.sequence ++ be 8 h.pts_us)))))))))

-- `struct` raises where a number does not fit its field.
abbrev pub fits : Header → Bool
fits h =
    ltb h.version (256 ^ 1)
    && ltb h.kind (256 ^ 1)
    && ltb h.header_length (256 ^ 2)
    && ltb h.payload_size (256 ^ 4)
    && ltb h.flags (256 ^ 4)
    && ltb h.width (256 ^ 4)
    && ltb h.height (256 ^ 4)
    && ltb h.epoch (256 ^ 8)
    && ltb h.sequence (256 ^ 8)
    && ltb h.pts_us (256 ^ 8)

-- `HEADER.unpack`, field by field from the left.
unfoldable pub unpack_header : List ℕ → Header
unpack_header s0 =
    let s1 = drop 4 s0 in
    let s2 = drop 1 s1 in
    let s3 = drop 1 s2 in
    let s4 = drop 2 s3 in
    let s5 = drop 4 s4 in
    let s6 = drop 4 s5 in
    let s7 = drop 4 s6 in
    let s8 = drop 4 s7 in
    let s9 = drop 8 s8 in
    let s10 = drop 8 s9 in
    record {
      magic_bytes = take 4 s0;
      version = from_be (take 1 s1);
      kind = from_be (take 1 s2);
      header_length = from_be (take 2 s3);
      payload_size = from_be (take 4 s4);
      flags = from_be (take 4 s5);
      width = from_be (take 4 s6);
      height = from_be (take 4 s7);
      epoch = from_be (take 8 s8);
      sequence = from_be (take 8 s9);
      pts_us = from_be (take 8 s10);
    }

abbrev pub header_of : Frame → Header
header_of f = record {
  magic_bytes = magic;
  version = 1;
  kind = f.kind;
  header_length = header_size;
  payload_size = length f.payload;
  flags = f.flags;
  width = f.width;
  height = f.height;
  epoch = f.epoch;
  sequence = f.sequence;
  pts_us = f.pts_us;
}

abbrev pub frame_of : Header → List ℕ → Frame
frame_of h payload = record {
  kind = h.kind;
  flags = h.flags;
  width = h.width;
  height = h.height;
  epoch = h.epoch;
  sequence = h.sequence;
  pts_us = h.pts_us;
  payload = payload;
}

unfoldable pub pack : Json → Frame → Result ProtocolError (List ℕ)
pack json f = do
  _ ← validate json f
  raise_if (not (fits (header_of f))) struct_error
  ok (pack_header (header_of f) ++ f.payload)

-- `StreamReader.readexactly` on the bytes that will arrive before the end of the stream: it returns
-- the bytes and the stream behind them.
abbrev pub readexactly : ℕ → List ℕ → Result ProtocolError (List ℕ × List ℕ)
readexactly n stream =
    if leb n (length stream) then ok (take n stream, drop n stream) else err incomplete_read

abbrev pub known_header : Header → Bool
known_header h =
    list_eq h.magic_bytes magic
    && h.version == 1
    && h.header_length == header_size
    && (h.kind == au || h.kind == status_kind)

abbrev pub payload_limit : ℕ → ℕ
payload_limit kind = if kind == status_kind then 65536 else max_payload

unfoldable pub read_frame : Json → List ℕ → Result ProtocolError (Frame × List ℕ)
read_frame json stream = do
  (header, s) ← readexactly header_size stream
  let h = unpack_header header
  raise_if (not (known_header h)) bad_header
  raise_if (not (ltb 0 h.payload_size && leb h.payload_size (payload_limit h.kind))) payload_length
  (payload, rest) ← readexactly h.payload_size s
  f ← validate json (frame_of h payload)
  ok (f, rest)
