-- ===== src/Tests/Samples.antt =====
-- Frames in the shape of those that native/capture.c sends.
use nanopc_t6_kvm.Base.{ℕ, true, false, List, [], ◌∷◌, Option, none, some, if◌then◌else◌, list_eq}
use nanopc_t6_kvm.Value.{Value, obj, end, Json}
use nanopc_t6_kvm.Protocol.{Frame}
use nanopc_t6_kvm.Protocol.Nal.Stream.{Unit264}

-- A reader of JSON that knows one document, the empty object.
abbrev pub toy_loads : List ℕ → Option Value
toy_loads bytes = if list_eq bytes (b'{' ∷ b'}' ∷ []) then some (obj end) else none

abbrev pub toy_json : Json
toy_json = record { loads = toy_loads; dumps = λ v. b'{' ∷ b'}' ∷ []; to_text = λ v. [] }

abbrev pub sps : Unit264
sps = record { long = true; header = 0x67; body = 0x42 ∷ 0 ∷ 0x1f ∷ [] }

abbrev pub pps : Unit264
pps = record { long = false; header = 0x68; body = 0xce ∷ [] }

abbrev pub idr : Unit264
idr = record { long = false; header = 0x65; body = 0x88 ∷ [] }

abbrev pub slice : Unit264
slice = record { long = true; header = 0x41; body = 0x9a ∷ [] }

abbrev pub key_bytes : List ℕ
key_bytes =
    0 ∷ 0 ∷ 0 ∷ 1 ∷ 0x67 ∷ 0x42 ∷ 0 ∷ 0x1f ∷ 0 ∷ 0 ∷ 1 ∷ 0x68 ∷ 0xce ∷ 0 ∷ 0 ∷ 1 ∷ 0x65 ∷ 0x88 ∷ []

abbrev pub slice_bytes : List ℕ
slice_bytes = 0 ∷ 0 ∷ 0 ∷ 1 ∷ 0x41 ∷ 0x9a ∷ []

abbrev pub key_frame : ℕ → Frame
key_frame n = record {
  kind = 1;
  flags = 3;
  width = 1920;
  height = 1080;
  epoch = 7;
  sequence = n;
  pts_us = 16667;
  payload = key_bytes;
}

abbrev pub slice_frame : ℕ → Frame
slice_frame n = record {
  kind = 1;
  flags = 1;
  width = 1920;
  height = 1080;
  epoch = 7;
  sequence = n;
  pts_us = 33333;
  payload = slice_bytes;
}

abbrev pub status_frame : Frame
status_frame = record {
  kind = 2;
  flags = 0;
  width = 0;
  height = 0;
  epoch = 0;
  sequence = 0;
  pts_us = 0;
  payload = b'{' ∷ b'}' ∷ [];
}
