-- ===== src/Broker/Streams.antt =====
-- What the clients of src/t6_kvm/daemon.py are sent, over any interleaving of its tasks.
use nanopc_t6_kvm.Base.{
  ℕ, zero, suc, ◌+◌, ◌-◌, ◌≤◌, ◌≡◌, ◌≢◌, refl, arith, Bool, List, [], ◌∷◌, Option, none, some,
  length, All, Result, ok, err, ◌>>=◌,
}
use nanopc_t6_kvm.Protocol.{Frame}
use nanopc_t6_kvm.Buffer.{BufferError, FrameBuffer, put}
use nanopc_t6_kvm.Buffer.Delivery.{IsValid, Kept, put-Kept}
use nanopc_t6_kvm.Broker.{Broker, Worker, request_key, request_keys, request_by}
use nanopc_t6_kvm.Broker.Publish.{Run, buffer_error, put_each, hand_out_end, hand_out}

-- What each client has been sent.
abbrev pub Sent : Type 0
Sent = ℕ → List Frame

-- Each client's buffer is valid behind what the client has been sent.
abbrev pub AllValid : ℕ → Sent → List (ℕ × FrameBuffer) → Type 0
AllValid limit sent = All (λ e. IsValid limit (sent e.0) e.1)

pub record IsServing (sent : Sent) (b : Broker) : Type 0 where
  pub limit : (1 ≤ b.queue_frames) × (b.queue_frames ≤ 8)
  pub buffers : AllValid b.queue_frames sent b.buffers
  pub clients : length b.clients ≤ 4

-- `put` was called on every buffer, and none raised.
abbrev AllKept : ℕ → Sent → Result BufferError (List (ℕ × FrameBuffer) × ℕ) → Type 0
AllKept limit sent (ok (bs, n)) = AllValid limit sent bs
AllKept limit sent (err e) = ⊥

put_each-step :
    (limit : ℕ) (sent : Sent) (c : ℕ) (old : FrameBuffer)
    (r : Result BufferError (FrameBuffer × Bool))
    (rest : Result BufferError (List (ℕ × FrameBuffer) × ℕ))
    → Kept limit (sent c) r
    → AllKept limit sent rest
    → AllKept limit sent
        (r >>= λ p. rest >>= λ q. ok ((c, p.0) ∷ q.0, (p.0.key_requests - old.key_requests) + q.1))
put_each-step limit sent c old (ok (buf, done)) (ok (bs, n)) k h = (k, h)
put_each-step limit sent c old (ok (buf, done)) (err e) k h = absurd h
put_each-step limit sent c old (err e) rest k h = absurd k

put_each-AllKept :
    (limit : ℕ) (sent : Sent) (f : Frame) (bs : List (ℕ × FrameBuffer))
    → AllValid limit sent bs
    → AllKept limit sent (put_each f bs)
unfolding put_each
put_each-AllKept limit sent f [] h = tt
put_each-AllKept limit sent f ((c, buf) ∷ rest) h =
    put_each-step limit sent c buf (put buf f) (put_each f rest) (put-Kept limit (sent c) buf f h.0)
      (put_each-AllKept limit sent f rest h.1)

-- The parts of a broker that the clients' streams hang on.
abbrev pub SameClients : Broker → Broker → Type 0
SameClients b b' =
    (b'.queue_frames ≡ b.queue_frames) × (b'.buffers ≡ b.buffers) × (b'.clients ≡ b.clients)

pub request_key-SameClients : (now : ℕ) (b : Broker) → SameClients b (request_key now b)
unfolding request_key
request_key-SameClients now b = go b.proc
  where
    go : (proc : Option Worker) → SameClients b (request_by proc now b)
    go none = (refl, refl, refl)
    go (some w) = ground arith

pub SameClients-IsServing :
    (sent : Sent) (b b' : Broker) → SameClients b b' → IsServing sent b → IsServing sent b'
SameClients-IsServing sent b b' (limit, buffers, clients) v = record {
  limit = rw limit (v.limit);
  buffers = rw (limit, buffers) (v.buffers);
  clients = rw clients (v.clients);
}

request_keys-IsServing :
    (n now : ℕ) (sent : Sent) (b : Broker)
    → IsServing sent b
    → IsServing sent (request_keys n now b)
unfolding request_keys
request_keys-IsServing zero now sent b v = v
request_keys-IsServing (suc n) now sent b v =
    request_keys-IsServing n now sent (request_key now b)
      (SameClients-IsServing sent b (request_key now b) (request_key-SameClients now b) v)

-- What a call did to the clients' streams: they are still served, and no queue was full.
pub record Serves (sent : Sent) (r : Run) : Type 0 where
  pub serving : IsServing sent r.0
  pub no_buffer_error : (e : BufferError) → r.1 ≢ err (buffer_error e)

hand_out_end-Serves :
    (now : ℕ) (sent : Sent) (b : Broker) (r : Result BufferError (List (ℕ × FrameBuffer) × ℕ))
    → IsServing sent b
    → AllKept b.queue_frames sent r
    → Serves sent (hand_out_end now b r)
hand_out_end-Serves now sent b (ok (bs, n)) v k = record {
  serving =
      request_keys-IsServing n now sent (record b { buffers = bs })
        (record { limit = v.limit; buffers = k; clients = v.clients });
  no_buffer_error = λ e p. cc;
}
hand_out_end-Serves now sent b (err e) v k = absurd k

pub hand_out-Serves :
    (now : ℕ) (sent : Sent) (b : Broker) (f : Frame)
    → IsServing sent b
    → Serves sent (hand_out now b f)
hand_out-Serves now sent b f v =
    hand_out_end-Serves now sent b (put_each f b.buffers) v
      (put_each-AllKept b.queue_frames sent f b.buffers v.buffers)
