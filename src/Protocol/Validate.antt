-- ===== src/Protocol/Validate.antt =====
-- `Frame.validate` of src/t6_kvm/protocol.py.
pub mod Accepts
use nanopc_t6_kvm.Base.{
  ℕ, ◌%◌, ◌^◌, Bool, true, false, ◌&&◌, ◌||◌, not, List, Option, none, some, ltb, leb, ◌==◌,
  if◌then◌else◌, length, contains, Result, ok, err, ◌>>=◌, ◌>>◌, raise_if,
}
use nanopc_t6_kvm.Value.{Value, Json, is_object}
use nanopc_t6_kvm.Protocol.{
  au, status_kind, max_payload, ProtocolError, unsupported_kind, payload_length, invalid_counter,
  au_requires, invalid_dimensions, no_coded_picture, key_mismatch, status_too_large, invalid_json,
  not_object, Frame, is_online, is_key,
}
use nanopc_t6_kvm.Protocol.Nal.{nal_types}

abbrev pub is_counter : ℕ → Bool
is_counter n = ltb n (2 ^ 64)

abbrev pub is_dimension : ℕ → Bool
is_dimension n = ltb 0 n && leb n 4096 && n % 2 == 0

-- `self.key != (5 in types) or (self.key and not {7,8,5} <= types)`
abbrev pub mismatched : Bool → List ℕ → Bool
mismatched true types =
    not (contains 5 types) || not (contains 7 types && contains 8 types && contains 5 types)
mismatched false types = contains 5 types

unfoldable pub check_au : Frame → Result ProtocolError (Unit {0})
check_au f = do
  raise_if (not (is_online f) || f.epoch == 0 || f.sequence == 0) au_requires
  raise_if (not (is_dimension f.width && is_dimension f.height)) invalid_dimensions
  types ← nal_types f.payload
  raise_if (not (contains 1 types || contains 5 types)) no_coded_picture
  raise_if (mismatched (is_key f) types) key_mismatch

abbrev pub object_or_raise : Option Value → Result ProtocolError (Unit {0})
object_or_raise none = err invalid_json
object_or_raise (some v) = raise_if (not (is_object v)) not_object

unfoldable pub check_status : Json → Frame → Result ProtocolError (Unit {0})
check_status json f = do
  raise_if (ltb 65536 (length f.payload)) status_too_large
  object_or_raise (json.loads f.payload)

unfoldable pub validate : Json → Frame → Result ProtocolError Frame
unfolding check_au check_status
validate json f = do
  raise_if (not (f.kind == au || f.kind == status_kind) || leb 8 f.flags) unsupported_kind
  raise_if (not (ltb 0 (length f.payload) && leb (length f.payload) max_payload)) payload_length
  raise_if (not (is_counter f.epoch && is_counter f.sequence && is_counter f.pts_us))
      invalid_counter
  if f.kind == au then check_au f else check_status json f
  ok f
