-- ===== src/Broker/Delivered.antt =====
-- Every client of src/t6_kvm/daemon.py is sent a stream that a decoder can show.
use nanopc_t6_kvm.Base.{
  ℕ, ◌≤◌, ◌<◌, ◌≡◌, ◌≢◌, inl, inr, refl, arith, Bool, true, false, List, [], ◌∷◌, none, some, leb,
  ◌==◌, if◌then◌else◌, ==_refl, ==_iff, Bool-cases, length, Result, ok, err,
}
use nanopc_t6_kvm.Value.{Json}
use nanopc_t6_kvm.Protocol.{Frame}
use nanopc_t6_kvm.Gate.Decodable.{IsDecodable, IsDecodable-left}
use nanopc_t6_kvm.Buffer.{BufferError, FrameBuffer, make}
use nanopc_t6_kvm.Buffer.Delivery.{IsValid}
use nanopc_t6_kvm.Buffer.Run.{make-IsValid, take_frame, take_frame-IsValid}
use nanopc_t6_kvm.Broker.{Broker, create, request_key}
use nanopc_t6_kvm.Broker.Clients.{
  enlist, connect, discard, discard_buffer, disconnect, command, all_keys,
}
use nanopc_t6_kvm.Broker.Streams.{
  Sent, AllValid, IsServing, request_key-SameClients, SameClients-IsServing,
}
use nanopc_t6_kvm.Broker.Reachable.{
  begin_life-Serves, on_event-Serves, find, replace, sent_to, Step, life, event, join, leave,
  control, deliver, Reach, here, next,
}
use nanopc_t6_kvm.Broker.Publish.{buffer_error}
use nanopc_t6_kvm.Broker.Supervise.{Event, on_event}
use mathlib.Core.Path.{subst}

sent_to_self : (c : ℕ) (log : List Frame) (sent : Sent) → sent_to c log sent c ≡ log
sent_to_self c log sent = rw (==_refl c) refl

-- What is changed for a client without a buffer here concerns no buffer.
sent_to-AllValid :
    (limit c : ℕ) (log : List Frame) (sent : Sent) (bs : List (ℕ × FrameBuffer))
    → find c bs ≡ none
    → AllValid limit sent bs
    → AllValid limit (sent_to c log sent) bs
sent_to-AllValid limit c log sent [] h v = tt
sent_to-AllValid limit c log sent ((x, buf) ∷ rest) h v = elim (Bool-cases (x == c)) [
  | inl here_it_is ↦ absurd (ground arith)
  | inr other ↦ (rw other v.0, sent_to-AllValid limit c log sent rest (rw other at h) v.1)
]

connect-IsServing :
    (now c : ℕ) (sent : Sent) (b : Broker)
    → find c b.buffers ≡ none
    → IsServing sent b
    → IsServing (sent_to c [] sent) (connect now c b).0
unfolding connect
connect-IsServing now c sent b fresh_client v = elim (Bool-cases (leb 4 (length b.clients))) [
  | inl crowded ↦ rw crowded (unchanged b.clients v.clients)
  | inr room ↦ rw room (joined (ground arith) (make b.queue_frames) refl)
]
  where
    others : AllValid b.queue_frames (sent_to c [] sent) b.buffers
    others = sent_to-AllValid b.queue_frames c [] sent b.buffers fresh_client v.buffers

    unchanged : (clients : List ℕ) → length clients ≤ 4 → IsServing (sent_to c [] sent) b
    unchanged clients h = record { limit = v.limit; buffers = others; clients = v.clients }

    joined :
        length b.clients < 4
        → (r : Result BufferError FrameBuffer) → make b.queue_frames ≡ r
        → IsServing (sent_to c [] sent) (enlist now c b r).0
    joined space (err e) m = unchanged b.clients v.clients
    joined space (ok buf) m =
        let b1 = record b { clients = c ∷ b.clients; buffers = (c, buf) ∷ b.buffers } in
        SameClients-IsServing (sent_to c [] sent) b1 (request_key now b1)
          (request_key-SameClients now b1)
          (record {
            limit = v.limit;
            buffers = (rw (sent_to_self c [] sent) (make-IsValid b.queue_frames buf m), others);
            clients = space;
          })

discard-le : (c : ℕ) (xs : List ℕ) → length (discard c xs) ≤ length xs
discard-le c [] = omega arith
discard-le c (x ∷ xs) = ground (arith, discard-le c xs)

discard_buffer-AllValid :
    (limit c : ℕ) (sent : Sent) (bs : List (ℕ × FrameBuffer))
    → AllValid limit sent bs
    → AllValid limit sent (discard_buffer c bs)
discard_buffer-AllValid limit c sent [] v = tt
discard_buffer-AllValid limit c sent ((x, buf) ∷ rest) v = elim (Bool-cases (x == c)) [
  | inl gone ↦ rw gone (discard_buffer-AllValid limit c sent rest v.1)
  | inr kept ↦ rw kept (v.0, discard_buffer-AllValid limit c sent rest v.1)
]

disconnect-IsServing :
    (c : ℕ) (sent : Sent) (b : Broker) → IsServing sent b → IsServing sent (disconnect c b)
unfolding disconnect
disconnect-IsServing c sent b v = record {
  limit = v.limit;
  buffers = discard_buffer-AllValid b.queue_frames c sent b.buffers v.buffers;
  clients = omega (arith, v.clients, discard-le c b.clients);
}

command-IsServing :
    (now : ℕ) (bytes : List ℕ) (sent : Sent) (b : Broker)
    → IsServing sent b
    → IsServing sent (command now bytes b).0
unfolding command
command-IsServing now bytes sent b v = elim (Bool-cases (all_keys bytes)) [
  | inl keys ↦ rw keys (SameClients-IsServing sent b _ (request_key-SameClients now b) v)
  | inr unknown ↦ rw unknown v
]

find-IsValid :
    (limit c : ℕ) (sent : Sent) (bs : List (ℕ × FrameBuffer)) {buf : FrameBuffer}
    → find c bs ≡ some buf
    → AllValid limit sent bs
    → IsValid limit (sent c) buf
find-IsValid limit c sent [] h v = absurd (ground arith)
find-IsValid limit c sent ((x, new) ∷ rest) {buf} h v = elim (Bool-cases (x == c)) [
  | inl here_it_is ↦
      let e : x ≡ c = (==_iff x c).0 here_it_is in
      let eq : some new ≡ some buf = rw here_it_is at h in
      let q : new ≡ buf = cc in
      subst (λ t. IsValid limit (sent t) buf) e (subst (IsValid limit (sent x)) q v.0)
  | inr other ↦ find-IsValid limit c sent rest (rw other at h) v.1
]

replace-AllValid :
    (limit c : ℕ) (log : List Frame) (new : FrameBuffer) (sent : Sent) (bs : List (ℕ × FrameBuffer))
    → IsValid limit log new
    → AllValid limit sent bs
    → AllValid limit (sent_to c log sent) (replace c new bs)
replace-AllValid limit c log new sent [] n v = tt
replace-AllValid limit c log new sent ((x, buf) ∷ rest) n v =
    (one (x == c) refl, replace-AllValid limit c log new sent rest n v.1)
  where
    one :
        (t : Bool)
        → (x == c) ≡ t
        → IsValid limit (if t then log else sent x) (if t then new else buf)
    one true e = n
    one false e = v.0

deliver-IsServing :
    (c : ℕ) (buf : FrameBuffer) (sent : Sent) (b : Broker)
    → find c b.buffers ≡ some buf
    → IsServing sent b
    → IsServing
        (sent_to c (take_frame (sent c, buf)).0 sent)
        (record b { buffers = replace c (take_frame (sent c, buf)).1 b.buffers })
deliver-IsServing c buf sent b found v = record {
  limit = v.limit;
  buffers =
      replace-AllValid b.queue_frames c _ _ sent b.buffers
        (take_frame-IsValid b.queue_frames (sent c) buf
          (find-IsValid b.queue_frames c sent b.buffers found v.buffers))
        v.buffers;
  clients = v.clients;
}

Step-IsServing :
    {json : Json} {b : Broker} {sent : Sent} {b' : Broker} {sent' : Sent}
    → Step json b sent b' sent'
    → IsServing sent b
    → IsServing sent' b'
Step-IsServing {json} {b} {sent = sent} (life now) v = (begin_life-Serves json now sent b v).serving
Step-IsServing {json} {b} {sent = sent} (event now e) v =
    (on_event-Serves json now sent b e v).serving
Step-IsServing {b = b} {sent = sent} (join now c fresh_client) v =
    connect-IsServing now c sent b fresh_client v
Step-IsServing {b = b} {sent = sent} (leave c) v = disconnect-IsServing c sent b v
Step-IsServing {b = b} {sent = sent} (control now bytes) v = command-IsServing now bytes sent b v
Step-IsServing {b = b} {sent = sent} (deliver c buf found) v =
    deliver-IsServing c buf sent b found v

Reach-IsServing :
    {json : Json} {b0 : Broker} {sent0 : Sent} {b : Broker} {sent : Sent}
    → IsServing sent0 b0
    → Reach json b0 sent0 b sent
    → IsServing sent b
Reach-IsServing v here = v
Reach-IsServing v (next r st) = Step-IsServing st (Reach-IsServing v r)

abbrev pub nothing_sent : Sent
nothing_sent c = []

pub create-IsServing : (q stall : ℕ) → 1 ≤ q → q ≤ 8 → IsServing nothing_sent (create q stall)
create-IsServing q stall least most = record {
  limit = (least, most);
  buffers = tt;
  clients = omega arith;
}

-- In every state that the tasks of a broker can reach, at most four clients are connected, the frames
-- that a connected client has been sent are a stream that a decoder can show, no more than
-- `queue_frames` wait for it, and the next event of the worker finds no queue full.
pub streams-IsDecodable :
    (json : Json) (q stall now c : ℕ) (e : Event) (x : BufferError) {b : Broker} {sent : Sent}
    {buf : FrameBuffer}
    → 1 ≤ q
    → q ≤ 8
    → Reach json (create q stall) nothing_sent b sent
    → find c b.buffers ≡ some buf
    → (length b.clients ≤ 4)
      × IsDecodable none (sent c)
      × (length buf.queue ≤ b.queue_frames)
      × ((on_event json now b e).1 ≢ err (buffer_error x))
streams-IsDecodable json q stall now c e x {b} {sent} {buf} least most r found =
    let v = Reach-IsServing (create-IsServing q stall least most) r in
    let w = find-IsValid b.queue_frames c sent b.buffers found v.buffers in
    (
      v.clients,
      IsDecodable-left none (sent c) buf.queue w.decodable,
      omega (arith, w.bounded, w.limited),
      (on_event-Serves json now sent b e v).no_buffer_error x,
    )
