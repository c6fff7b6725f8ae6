-- ===== src/Buffer.antt =====
-- `FrameBuffer` of src/t6_kvm/buffer.py: a bounded queue behind a recovery gate.
pub mod Delivery
pub mod Run
pub mod Account
use nanopc_t6_kvm.Base.{
  ℕ, ◌+◌, Bool, true, false, ◌&&◌, not, List, [], ◌∷◌, ◌++◌, Option, none, some, leb, ◌==◌,
  if◌then◌else◌, length, Result, ok, err, ◌>>=◌, ◌>>◌, raise_if,
}
use nanopc_t6_kvm.Protocol.{Frame, au}
use nanopc_t6_kvm.Gate.{RecoveryGate, accept}
use nanopc_t6_kvm.Gate

pub data BufferError : Type 0 where
  -- `asyncio.QueueFull`
  queue_full : BufferError
  -- `ValueError("capacity must be 1..8")`
  bad_capacity : BufferError

-- `key_requests` counts the calls of the callback `request_key`.
pub record FrameBuffer : Type 0 where
  pub capacity : ℕ
  pub queue : List Frame
  pub gate : RecoveryGate
  pub dropped : ℕ
  pub key_requests : ℕ

abbrev pub fresh : ℕ → FrameBuffer
fresh capacity = record {
  capacity = capacity;
  queue = [];
  gate = Gate.reset;
  dropped = 0;
  key_requests = 0;
}

-- `__init__`
abbrev pub make : ℕ → Result BufferError FrameBuffer
make capacity = do
  raise_if (not (leb 1 capacity && leb capacity 8)) bad_capacity
  ok (fresh capacity)

-- `Queue.full` and `Queue.put_nowait` of a queue with a positive `maxsize`.
abbrev pub full : FrameBuffer → Bool
full b = leb b.capacity (length b.queue)

abbrev pub put_nowait : FrameBuffer → Frame → Result BufferError FrameBuffer
put_nowait b f = if full b then err queue_full else ok (record b { queue = b.queue ++ (f ∷ []) })

-- The loop of `reset` takes every frame out and counts each.
abbrev pub reset : FrameBuffer → FrameBuffer
reset b = record b { queue = []; gate = Gate.reset; dropped = b.dropped + length b.queue }

abbrev pub request_key : FrameBuffer → FrameBuffer
request_key b = record b { key_requests = b.key_requests + 1 }

abbrev pub make_room : FrameBuffer → FrameBuffer
make_room b = if full b then request_key (reset b) else b

-- The part of `put` from the gate on.
abbrev pub put_gated :
    FrameBuffer → Frame → RecoveryGate × Bool → Result BufferError (FrameBuffer × Bool)
put_gated b f (g, false) = ok (request_key (record b { gate = g; dropped = b.dropped + 1 }), false)
put_gated b f (g, true) = do b' ← put_nowait (record b { gate = g }) f; ok (b', true)

unfoldable pub put : FrameBuffer → Frame → Result BufferError (FrameBuffer × Bool)
put b f =
    if not (f.kind == au)
    then put_nowait (reset b) f >>= (λ b'. ok (b', true))
    else put_gated (make_room b) f (accept (make_room b).gate f)

-- `get`; `none` where the caller waits.
abbrev pub get : FrameBuffer → Option (Frame × FrameBuffer)
get b = elim b.queue [ [] ↦ none | f ∷ fs ↦ some (f, record b { queue = fs }) ]
