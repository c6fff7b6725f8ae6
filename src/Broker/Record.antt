-- ===== src/Broker/Record.antt =====
-- What handing a frame out leaves as it is, and the record that `publish` of src/t6_kvm/daemon.py keeps
-- of the pictures that it passes on.
use nanopc_t6_kvm.Base.{
  ℕ, zero, suc, ◌+◌, ◌≤◌, ◌≡◌, refl, ◌∙◌, arith, Bool, true, false, List, Option, none, some, ◌==◌,
  ==_iff, All, Result, ok, err,
}
use nanopc_t6_kvm.Value.{Json}
use nanopc_t6_kvm.Protocol.{Frame, au}
use nanopc_t6_kvm.Gate.{RecoveryGate, accept}
use nanopc_t6_kvm.Buffer.{BufferError, FrameBuffer}
use nanopc_t6_kvm.Broker.{Broker, Worker, request_by, request_key, request_keys}
use nanopc_t6_kvm.Broker.Publish.{
  put_each, hand_out_end, hand_out, rate_of, window, published_state, publish_au, publish,
}
use nanopc_t6_kvm.Broker.Window.{IsWindow, IsRecent, window-IsWindow, rate_of-micros}

-- The parts of a broker that handing a frame out leaves as they are.
abbrev pub SameRecord : Broker → Broker → Type 0
SameRecord b b' =
    (b'.times ≡ b.times)
    × (b'.state ≡ b.state)
    × (b'.gate ≡ b.gate)
    × (b'.wait_key_since ≡ b.wait_key_since)
    × (b'.stall_micros ≡ b.stall_micros)

pub request_key-SameRecord : (now : ℕ) (b : Broker) → SameRecord b (request_key now b)
unfolding request_key
request_key-SameRecord now b = go b.proc
  where
    go : (proc : Option Worker) → SameRecord b (request_by proc now b)
    go none = (refl, refl, refl, refl, refl)
    go (some w) = ground arith

request_keys-SameRecord : (n now : ℕ) (b : Broker) → SameRecord b (request_keys n now b)
unfolding request_keys
request_keys-SameRecord zero now b = (refl, refl, refl, refl, refl)
request_keys-SameRecord (suc n) now b =
    let (a1, a2, a3, a4, a5) = request_key-SameRecord now b in
    let (c1, c2, c3, c4, c5) = request_keys-SameRecord n now (request_key now b) in
    (c1 ∙ a1, c2 ∙ a2, c3 ∙ a3, c4 ∙ a4, c5 ∙ a5)

pub hand_out-SameRecord : (now : ℕ) (b : Broker) (f : Frame) → SameRecord b (hand_out now b f).0
hand_out-SameRecord now b f = go (put_each f b.buffers)
  where
    go :
        (r : Result BufferError (List (ℕ × FrameBuffer) × ℕ))
        → SameRecord b (hand_out_end now b r).0
    go (ok (buffers, requests)) =
        request_keys-SameRecord requests now (record b { buffers = buffers })
    go (err e) = (refl, refl, refl, refl, refl)

pub publish-au :
    (json : Json) (now : ℕ) (b : Broker) (f : Frame)
    → f.kind ≡ au
    → publish json now b f ≡ publish_au now b f (accept b.gate f)
unfolding publish
publish-au json now b f k = let q : (f.kind == au) ≡ true = (==_iff f.kind au).1 k in rw q refl

-- Behind a picture that the gate passed, the broker is online without an error and has counted the
-- picture; its times are at most 600, in order, and none is later than now or older than five seconds;
-- and the rate divides by between one microsecond and five seconds.
publish-IsWindow :
    (json : Json) (t0 now : ℕ) (b : Broker) (f : Frame)
    → f.kind ≡ au
    → (accept b.gate f).1 ≡ true
    → t0 ≤ now
    → IsWindow t0 b.times
    → let b' = (publish json now b f).0 in
      IsWindow now b'.times
      × All (IsRecent now) b'.times
      × (b'.state.online ≡ true)
      × (b'.state.last_error ≡ none)
      × (b'.state.encoded_frames ≡ b.state.encoded_frames + 1)
      × (1 ≤ b'.state.encoded_fps_observed.micros)
      × (b'.state.encoded_fps_observed.micros ≤ 5000000)
publish-IsWindow json t0 now b f k a h w = rw (publish-au json now b f k) (go (accept b.gate f) a)
  where
    go :
        (r : RecoveryGate × Bool)
        → r.1 ≡ true
        → let b' = (publish_au now b f r).0 in
          IsWindow now b'.times
          × All (IsRecent now) b'.times
          × (b'.state.online ≡ true)
          × (b'.state.last_error ≡ none)
          × (b'.state.encoded_frames ≡ b.state.encoded_frames + 1)
          × (1 ≤ b'.state.encoded_fps_observed.micros)
          × (b'.state.encoded_fps_observed.micros ≤ 5000000)
    go (g, false) e = absurd (ground arith)
    go (g, true) e =
        let times = window now b.times in
        let (v, fresh_times) = window-IsWindow t0 now b.times h w in
        let b1 = record b {
          gate = g;
          wait_key_since = 0;
          times = times;
          state = published_state b.state f (rate_of now times);
        } in
        let (e1, e2, e3, e4, e5) = hand_out-SameRecord now b1 f in
        rw (e1, e2)
          (let (least, most) = rate_of-micros now times fresh_times in
            (v, fresh_times, refl, refl, refl, least, most))
