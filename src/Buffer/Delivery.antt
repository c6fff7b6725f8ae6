-- ===== src/Buffer/Delivery.antt =====
-- What comes out of a `FrameBuffer` (src/t6_kvm/buffer.py), over any order of `put` and `get`.
use nanopc_t6_kvm.Base.{
  ℕ, ◌≤◌, ◌<◌, ◌≡◌, inl, inr, sym, arith, Bool, true, false, List, [], ◌∷◌, ◌++◌, none, leb, ◌==◌,
  Bool-cases, length, length-append, Result, ok, err, ◌>>=◌,
}
use nanopc_t6_kvm.Protocol.{Frame, au}
use nanopc_t6_kvm.Gate
use nanopc_t6_kvm.Gate.{RecoveryGate, accept}
use nanopc_t6_kvm.Gate.Decodable.{
  CanShow, IsDecodable, IsDecodable-append, IsDecodable-left, last_after, last_after-append, after,
  after-au, Tracks, Tracks-reset, Tracks-lost, Accepted, accept-Accepted,
}
use nanopc_t6_kvm.Buffer.{
  BufferError, FrameBuffer, full, put_nowait, reset, request_key, make_room, put_gated, put,
}
use mathlib.Core.List.{append_assoc, append-nil}

-- A buffer whose reader has taken the frames `log`, the oldest first: the queue is bounded, a decoder
-- can show the log and then the queue, and the gate knows the last picture of both.
pub record IsValid (limit : ℕ) (log : List Frame) (b : FrameBuffer) : Type 0 where
  pub limited : b.capacity ≡ limit
  pub capacity : 1 ≤ b.capacity
  pub bounded : length b.queue ≤ b.capacity
  pub decodable : IsDecodable none (log ++ b.queue)
  pub tracks : Tracks b.gate (last_after none (log ++ b.queue))

-- What a call of `put` on such a buffer has done: it returned, and the buffer is still so.
abbrev pub Kept : ℕ → List Frame → Result BufferError (FrameBuffer × Bool) → Type 0
Kept limit log (ok (b, done)) = IsValid limit log b
Kept limit log (err e) = ⊥

pub reset-IsValid :
    (limit : ℕ) (log : List Frame) (b : FrameBuffer)
    → IsValid limit log b
    → IsValid limit log (reset b)
reset-IsValid limit log b v = record {
  limited = v.limited;
  capacity = v.capacity;
  bounded = omega arith;
  decodable = rw (append-nil) (IsDecodable-left none log b.queue v.decodable);
  tracks = Tracks-reset _;
}

request_key-IsValid :
    (limit : ℕ) (log : List Frame) (b : FrameBuffer)
    → IsValid limit log b
    → IsValid limit log (request_key b)
request_key-IsValid limit log b v = record {
  limited = v.limited;
  capacity = v.capacity;
  bounded = v.bounded;
  decodable = v.decodable;
  tracks = v.tracks;
}

make_room-IsValid :
    (limit : ℕ) (log : List Frame) (b : FrameBuffer)
    → IsValid limit log b
    → IsValid limit log (make_room b)
make_room-IsValid limit log b v = elim (Bool-cases (full b)) [
  | inl overflow ↦
      rw overflow (request_key-IsValid limit log (reset b) (reset-IsValid limit log b v))
  | inr room ↦ rw room v
]

make_room_lt :
    (b : FrameBuffer) → 1 ≤ b.capacity → length (make_room b).queue < (make_room b).capacity
make_room_lt b h = elim (Bool-cases (full b)) [
  | inl overflow ↦ rw overflow h
  | inr room ↦ rw room (ground arith)
]

-- A frame that a decoder can show behind the queue is queued.
put_nowait-Kept :
    (limit : ℕ) (log : List Frame) (b : FrameBuffer) (g : RecoveryGate) (f : Frame)
    → IsValid limit log b
    → length b.queue < b.capacity
    → CanShow (last_after none (log ++ b.queue)) f
    → Tracks g (after f)
    → Kept limit log (put_nowait (record b { gate = g }) f >>= λ b'. ok (b', true))
put_nowait-Kept limit log b g f v room show tracks =
    let open_place : leb b.capacity (length b.queue) ≡ false = ground arith in
    let whole : log ++ (b.queue ++ (f ∷ [])) ≡ (log ++ b.queue) ++ (f ∷ []) =
      sym (append_assoc log b.queue (f ∷ [])) in
    rw open_place (record {
      limited = v.limited;
      capacity = v.capacity;
      bounded = omega (arith, length-append b.queue (f ∷ []));
      decodable =
          rw whole (IsDecodable-append none (log ++ b.queue) (f ∷ []) v.decodable (show, tt));
      tracks = rw (whole, last_after-append none (log ++ b.queue) (f ∷ [])) tracks;
    })

put_gated-Kept :
    (limit : ℕ) (log : List Frame) (b : FrameBuffer) (f : Frame) (r : RecoveryGate × Bool)
    → IsValid limit log b
    → length b.queue < b.capacity
    → Accepted (last_after none (log ++ b.queue)) f r
    → Kept limit log (put_gated b f r)
put_gated-Kept limit log b f (g, true) v room (a, show, tracks) =
    put_nowait-Kept limit log b g f v room show (rw (after-au f a) tracks)
put_gated-Kept limit log b f (g, false) v room lost = record {
  limited = v.limited;
  capacity = v.capacity;
  bounded = v.bounded;
  decodable = v.decodable;
  tracks = Tracks-lost g _ lost;
}

-- `put` never meets a full queue, and keeps the buffer valid, whatever frame it is given.
pub put-Kept :
    (limit : ℕ) (log : List Frame) (b : FrameBuffer) (f : Frame)
    → IsValid limit log b
    → Kept limit log (put b f)
unfolding put
put-Kept limit log b f v = elim (Bool-cases (f.kind == au)) [
  | inl a ↦
      let m = make_room b in
      let vm : IsValid limit log m = make_room-IsValid limit log b v in
      rw a (
        put_gated-Kept limit log m f (accept m.gate f) vm (make_room_lt b v.capacity)
          (accept-Accepted m.gate (last_after none (log ++ m.queue)) f vm.tracks))
  | inr s ↦ rw s (
      put_nowait-Kept limit log (reset b) Gate.reset f (reset-IsValid limit log b v) v.capacity
        (inl (ground arith)) (Tracks-reset (after f)))
]
