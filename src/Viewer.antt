-- ===== src/Viewer.antt =====
-- `Frame.kvmd` and `Frame.from_kvmd` of src/t6_kvm/protocol.py, and `VncFrameBuffer` of
-- src/t6_kvm/kvmd_adapter.py: the last queue before a viewer.
pub mod Client
pub mod Pictures
pub mod Shown
use nanopc_t6_kvm.Base.{
  ℕ, ◌+◌, ◌⊎◌, inl, inr, Bool, not, List, Option, none, some, ◌==◌, if◌then◌else◌, Result, ok, err,
}
use nanopc_t6_kvm.Value.{Fields, Value, Json, str, end, field}
use nanopc_t6_kvm.Protocol.{Frame, ProtocolError, au, is_online, is_key}
use nanopc_t6_kvm.Protocol.Validate.{validate}
use nanopc_t6_kvm.Buffer.{BufferError, FrameBuffer, reset, get}
use nanopc_t6_kvm.Buffer
use nanopc_t6_kvm.Broker.{codes}
use nanopc_t6_kvm.Broker.Publish.{status_frame}

-- The dictionary of a picture, whose entry "format" is H264.
pub record Picture : Type 0 where
  pub online : Bool
  pub width : ℕ
  pub height : ℕ
  pub key : Bool
  pub bytes : List ℕ
  pub epoch : ℕ
  pub sequence : ℕ
  pub pts_us : ℕ

abbrev pub kvmd : Frame → Picture
kvmd f = record {
  online = is_online f;
  width = f.width;
  height = f.height;
  key = is_key f;
  bytes = f.payload;
  epoch = f.epoch;
  sequence = f.sequence;
  pts_us = f.pts_us;
}

abbrev pub from_kvmd : Picture → Frame
from_kvmd p = record {
  kind = au;
  flags = 1 + (if p.key then 2 else 0);
  width = p.width;
  height = p.height;
  epoch = p.epoch;
  sequence = p.sequence;
  pts_us = p.pts_us;
  payload = p.bytes;
}

-- What the KVM daemon hands on: a picture, or a dictionary of another format, the waiting screen.
pub data Update : Type 0 where
  picture : Picture → Update
  screen : Fields → Update

-- `jpeg` is none before the first waiting screen.
pub record VncFrameBuffer : Type 0 where
  pub inner : FrameBuffer
  pub jpeg : Option Fields

pub data PutError : Type 0 where
  buffer_error : BufferError → PutError
  protocol_error : ProtocolError → PutError

abbrev pub Put : Type 0
Put = VncFrameBuffer × Result PutError Bool

abbrev pub put_inner : VncFrameBuffer → Result BufferError (FrameBuffer × Bool) → Put
put_inner b (ok (inner, done)) = (record b { inner = inner }, ok done)
put_inner b (err e) = (b, err (buffer_error e))

abbrev pub put_valid : VncFrameBuffer → Result ProtocolError Frame → Put
put_valid b (ok f) = put_inner b (Buffer.put b.inner f)
put_valid b (err e) = (b, err (protocol_error e))

-- `Frame.status(message="waiting")`
abbrev pub waiting : Json → Frame
waiting json = status_frame json (field (codes "message") (str (codes "waiting")) end)

-- A queue that has been reset takes a status, and `put` returns true.
unfoldable pub put : Json → VncFrameBuffer → Update → Put
put json b (picture p) = put_valid b (validate json (from_kvmd p))
put json b (screen value) =
    let b' = record b { inner = reset b.inner; jpeg = some value } in
    put_inner b' (Buffer.put b'.inner (waiting json))

-- What the viewer is sent for a frame; a status stands for the waiting screen.
abbrev pub shown : Option Fields → Frame → Picture ⊎ Option Fields
shown jpeg f = if not (f.kind == au) then inr jpeg else inl (kvmd f)

-- `get`; none where the caller waits.
unfoldable pub next_update : VncFrameBuffer → Option ((Picture ⊎ Option Fields) × VncFrameBuffer)
next_update b = elim (get b.inner) [
  | none ↦ none
  | some (f, inner) ↦ some (shown b.jpeg f, record b { inner = inner })
]
