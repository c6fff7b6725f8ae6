-- ===== src/Broker/Clients.antt =====
-- `serve_client` of src/t6_kvm/daemon.py, between its waits: a client that connects, its control bytes,
-- the frames that it is sent, and its end.
use nanopc_t6_kvm.Base.{
  ℕ, Bool, true, false, ◌&&◌, List, [], ◌∷◌, Option, none, some, leb, ◌==◌, if◌then◌else◌, length,
  Result, ok, err,
}
use nanopc_t6_kvm.Value.{Json}
use nanopc_t6_kvm.Protocol.{ProtocolError}
use nanopc_t6_kvm.Protocol.Wire.{pack}
use nanopc_t6_kvm.Buffer.{BufferError, FrameBuffer, make, get}
use nanopc_t6_kvm.Broker.{Broker, request_key}

-- The new client is refused at four clients; else it gets a buffer, and a key picture is requested.
abbrev pub enlist : ℕ → ℕ → Broker → Result BufferError FrameBuffer → Broker × Bool
enlist now client b (ok buf) = (
  request_key now (record b { clients = client ∷ b.clients; buffers = (client, buf) ∷ b.buffers }),
  true,
)
enlist now client b (err e) = (b, false)

unfoldable pub connect : ℕ → ℕ → Broker → Broker × Bool
connect now client b =
    if leb 4 (length b.clients) then (b, false) else enlist now client b (make b.queue_frames)

-- `set.discard`
abbrev pub discard : ℕ → List ℕ → List ℕ
discard c [] = []
discard c (x ∷ xs) = if x == c then discard c xs else x ∷ discard c xs

abbrev pub discard_buffer : ℕ → List (ℕ × FrameBuffer) → List (ℕ × FrameBuffer)
discard_buffer c [] = []
discard_buffer c ((x, buf) ∷ rest) =
    if x == c then discard_buffer c rest else (x, buf) ∷ discard_buffer c rest

-- The `finally` block.
unfoldable pub disconnect : ℕ → Broker → Broker
disconnect client b = record b {
  buffers = discard_buffer client b.buffers;
  clients = discard client b.clients;
}

abbrev pub all_keys : List ℕ → Bool
all_keys [] = true
all_keys (c ∷ cs) = c == b'K' && all_keys cs

-- One round of `commands` on the bytes read: false where the byte is unknown, which ends the client.
unfoldable pub command : ℕ → List ℕ → Broker → Broker × Bool
command now bytes b = if all_keys bytes then (request_key now b, true) else (b, false)

-- One round of `frames`, on the client's buffer: what is written to the client.
unfoldable pub send : Json → FrameBuffer → Option (Result ProtocolError (List ℕ) × FrameBuffer)
send json buf = elim (get buf) [ none ↦ none | some (f, buf') ↦ some (pack json f, buf') ]
