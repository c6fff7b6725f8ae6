-- ===== src/Protocol.antt =====
-- The data of src/t6_kvm/protocol.py: its constants, its exceptions and the `Frame` record.
pub mod Nal
pub mod Wire
pub mod Validate
use nanopc_t6_kvm.Base.{ℕ, ◌*◌, List, [], ◌∷◌, Bool, has_bit}

abbrev pub magic : List ℕ
magic = 0x54 ∷ 0x36 ∷ 0x41 ∷ 0x55 ∷ []

abbrev pub au : ℕ
au = 1

abbrev pub status_kind : ℕ
status_kind = 2

abbrev pub header_size : ℕ
header_size = 48

abbrev pub max_payload : ℕ
max_payload = 4 * 1024 * 1024

abbrev pub h264 : ℕ
h264 = 875967048

-- The messages of `ProtocolError`, in the order of the source. `index_error`, `struct_error` and
-- `incomplete_read` are the exceptions that `bytes`, `struct` and `StreamReader` raise.
pub data ProtocolError : Type 0 where
  not_annex_b empty_nal invalid_nal_header : ProtocolError
  unsupported_kind payload_length invalid_counter au_requires invalid_dimensions : ProtocolError
  no_coded_picture key_mismatch status_too_large invalid_json not_object : ProtocolError
  bad_header : ProtocolError
  index_error struct_error incomplete_read : ProtocolError

-- The integers are the unsigned ones of the wire.
pub record Frame : Type 0 where
  pub kind : ℕ
  pub flags : ℕ
  pub width : ℕ
  pub height : ℕ
  pub epoch : ℕ
  pub sequence : ℕ
  pub pts_us : ℕ
  pub payload : List ℕ

-- ONLINE, KEY and DISCONTINUITY are the flag bits 0, 1 and 2.
abbrev pub is_online : Frame → Bool
is_online f = has_bit f.flags 0

abbrev pub is_key : Frame → Bool
is_key f = has_bit f.flags 1

abbrev pub is_discontinuity : Frame → Bool
is_discontinuity f = has_bit f.flags 2
