-- ===== src/Broker/Recovery.antt =====
-- The end of a wait for a key picture in src/t6_kvm/daemon.py: the worker is started anew.
use nanopc_t6_kvm.Base.{
  ℕ, ◌+◌, ◌≤◌, ◌<◌, ◌≡◌, refl, ap, ◌∙◌, arith, true, false, List, [], ◌∷◌, none, ltb, ◌==◌, All,
}
use nanopc_t6_kvm.Value.{Json, str, boolean, field, end}
use nanopc_t6_kvm.Protocol.{Frame}
use nanopc_t6_kvm.Gate.{RecoveryGate, accept, seen}
use nanopc_t6_kvm.Gate
use nanopc_t6_kvm.Broker.{Broker, codes}
use nanopc_t6_kvm.Broker.Publish.{status, status_frame, offline}
use nanopc_t6_kvm.Broker.Supervise.{frame, end_life, on_event}
use nanopc_t6_kvm.Broker.Record.{hand_out-SameRecord}
use nanopc_t6_kvm.Broker.Waiting.{
  IsKeyless, IsWaiting, begun, holding, holding-IsWaiting, on_event-IsWaiting, on_event-late,
}

-- The worker's frames, each at its time.
unfoldable pub on_frames : Json → List (ℕ × Frame) → Broker → Broker
on_frames json [] b = b
on_frames json ((now, f) ∷ rest) b = on_frames json rest (on_event json now b (frame f)).0

abbrev pub IsInTime : ℕ → ℕ × Frame → Type 0
IsInTime last e = IsKeyless e.1 × (e.0 ≤ last)

on_frames-IsWaiting :
    (json : Json) (since restarts stall : ℕ) (frames : List (ℕ × Frame)) (b : Broker)
    → 0 < since
    → All (IsInTime (since + stall)) frames
    → IsWaiting since restarts stall b
    → IsWaiting since restarts stall (on_frames json frames b)
unfolding on_frames
on_frames-IsWaiting json since restarts stall [] b h ps w = w
on_frames-IsWaiting json since restarts stall ((now, f) ∷ rest) b h ((k, early), ps) w =
    let q : (since == 0) ≡ false = ground arith in
    on_frames-IsWaiting json since restarts stall rest (on_event json now b (frame f)).0 h ps
      (rw q at (on_event-IsWaiting json now since restarts stall b f k (rw q early) w))

end_life-restarts :
    (json : Json) (now : ℕ) (b : Broker) (message : List ℕ)
    → let b' = (end_life json now b message).0 in
      (b'.state.restarts ≡ b.state.restarts + 1)
      × (b'.proc ≡ none)
      × (b'.gate ≡ Gate.reset)
      × (b'.state.online ≡ false)
unfolding end_life status
end_life-restarts json now b message =
    let b1 = record b { gate = Gate.reset; times = []; state = offline b.state message } in
    let f =
      status_frame json
        (field (codes "online") (boolean false) (field (codes "message") (str message) end)) in
    let (e1, e2, e3, e4, e5) = hand_out-SameRecord now b1 f in
    (ap (λ s. s.restarts + 1) e2, refl, e3, ap (λ s. s.online) e2)

-- Let a broker behind a loss get pictures that are no key, the first at a positive time and more up to
-- `stall_micros` behind it: the worker keeps running. A further one later than that ends it: the
-- restart is counted, the gate is reset, and the broker is offline.
pub on_frames-restarts :
    (json : Json) (first last : ℕ) (f0 f1 : Frame) (more : List (ℕ × Frame)) (b : Broker)
    → b.gate.need_key ≡ true
    → b.wait_key_since ≡ 0
    → 0 < first
    → All (IsInTime (first + b.stall_micros)) ((first, f0) ∷ more)
    → IsKeyless f1
    → first + b.stall_micros < last
    → let waited = on_frames json ((first, f0) ∷ more) b in
      let b' = (on_event json last waited (frame f1)).0 in
      (waited.state.restarts ≡ b.state.restarts)
      × (b'.state.restarts ≡ b.state.restarts + 1)
      × (b'.proc ≡ none)
      × (b'.gate ≡ Gate.reset)
      × (b'.state.online ≡ false)
unfolding on_frames
on_frames-restarts json first last f0 f1 more b need idle h ((k, early), ps) k1 late =
    let stall = b.stall_micros in
    let restarts = b.state.restarts in
    let b1 = (on_event json first b (frame f0)).0 in
    let w1 : IsWaiting first restarts stall b1 =
      on_event-IsWaiting json first 0 restarts stall b f0 k early
        (record { need = need; moment = idle; started = refl; stall = refl }) in
    let b2 = on_frames json more b1 in
    let w2 : IsWaiting first restarts stall b2 =
      on_frames-IsWaiting json first restarts stall more b1 h ps w1 in
    let q : (first == 0) ≡ false = ground arith in
    let over : ltb (begun last first + stall) last ≡ true = rw q (ground arith) in
    let held = holding last first b2 f1 in
    let (e1, e2, e3, e4) =
      end_life-restarts json last held
        (codes "ProtocolError: No usable IDR after recovery timeout") in
    let w3 = holding-IsWaiting last first restarts stall b2 f1 w2 in
    rw (on_event-late json last first restarts stall b2 f1 k1 over w2)
      (w2.started, e1 ∙ ap (λ n. n + 1) (w3.started), e2, e3, e4)
