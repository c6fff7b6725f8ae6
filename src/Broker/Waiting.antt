-- ===== src/Broker/Waiting.antt =====
-- The wait for a key picture in src/t6_kvm/daemon.py: what one picture that is held back changes.
use nanopc_t6_kvm.Base.{
  ℕ, ◌+◌, ◌≤◌, ◌≡◌, refl, ap, ◌∙◌, arith, Bool, true, false, ltb, ◌==◌, if◌then◌else◌, ==_iff, ok,
  err,
}
use nanopc_t6_kvm.Value.{Json}
use nanopc_t6_kvm.Protocol.{Frame, au, is_key}
use nanopc_t6_kvm.Gate.{RecoveryGate, accept, seen}
use nanopc_t6_kvm.Broker.{Broker, codes, request_key}
use nanopc_t6_kvm.Broker.Publish.{Run, held_back, publish_au, publish, recovery_timeout}
use nanopc_t6_kvm.Broker.Supervise.{frame, end_life, after_publish, on_event}
use nanopc_t6_kvm.Broker.Record.{request_key-SameRecord, publish-au}

-- A picture that shows nothing behind a loss.
abbrev pub IsKeyless : Frame → Type 0
IsKeyless f = (f.kind ≡ au) × (is_key f ≡ false)

-- The worker's pictures are held back, since a moment; its restarts so far.
pub record IsWaiting (since restarts patience : ℕ) (b : Broker) : Type 0 where
  pub need : b.gate.need_key ≡ true
  pub moment : b.wait_key_since ≡ since
  pub started : b.state.restarts ≡ restarts
  pub stall : b.stall_micros ≡ patience

accept-keyless :
    (g : RecoveryGate) (f : Frame)
    → g.need_key ≡ true
    → IsKeyless f
    → accept g f ≡ (seen true f, false)
unfolding accept
accept-keyless g f need (k, h) =
    let q : (f.kind == au) ≡ true = (==_iff f.kind au).1 k in rw (q, need, h) refl

publish-keyless :
    (json : Json) (now : ℕ) (b : Broker) (f : Frame)
    → b.gate.need_key ≡ true
    → IsKeyless f
    → publish json now b f ≡ held_back now (record b { gate = seen true f })
publish-keyless json now b f need h =
    publish-au json now b f h.0 ∙ ap (publish_au now b f) (accept-keyless b.gate f need h)

abbrev pub begun : ℕ → ℕ → ℕ
begun now since = if since == 0 then now else since

-- The end of `held_back`, behind the request for a key.
held_back_end :
    (now since stall : ℕ) (b : Broker)
    → b.wait_key_since ≡ since
    → b.stall_micros ≡ stall
    → let b2 = record b { wait_key_since = begun now b.wait_key_since } in
      ◌≡◌ {A = Run}
        (if ltb (b2.wait_key_since + b2.stall_micros) now
          then (b2, err recovery_timeout)
          else (b2, ok tt))
        (
          record b { wait_key_since = begun now since },
          if ltb (begun now since + stall) now then err recovery_timeout else ok tt,
        )
held_back_end now since stall b e1 e2 =
    rw (← e1, ← e2) (go (ltb (begun now b.wait_key_since + b.stall_micros) now))
  where
    go :
        (late : Bool)
        → let b2 = record b { wait_key_since = begun now b.wait_key_since } in
          ◌≡◌ {A = Run}
            (if late then (b2, err recovery_timeout) else (b2, ok tt))
            (b2, if late then err recovery_timeout else ok tt)
    go true = refl
    go false = refl

held_back_lem :
    (now since stall : ℕ) (b : Broker)
    → b.wait_key_since ≡ since
    → b.stall_micros ≡ stall
    → held_back now b ≡ (
      record (request_key now b) { wait_key_since = begun now since },
      if ltb (begun now since + stall) now then err recovery_timeout else ok tt,
    )
held_back_lem now since stall b e1 e2 =
    let (_, _, _, e4, e5) = request_key-SameRecord now b in
    held_back_end now since stall (request_key now b) (e4 ∙ e1) (e5 ∙ e2)

-- The broker behind a picture that is held back.
abbrev pub holding : ℕ → ℕ → Broker → Frame → Broker
holding now since b f = record (request_key now (record b { gate = seen true f })) {
  wait_key_since = begun now since;
}

pub holding-IsWaiting :
    (now since restarts stall : ℕ) (b : Broker) (f : Frame)
    → IsWaiting since restarts stall b
    → IsWaiting (begun now since) restarts stall (holding now since b f)
holding-IsWaiting now since restarts stall b f w =
    let (e1, e2, e3, e4, e5) = request_key-SameRecord now (record b { gate = seen true f }) in
    record {
      need = rw e3 refl;
      moment = refl;
      started = rw e2 (w.started);
      stall = rw e5 (w.stall);
    }

on_event-keyless :
    (json : Json) (now since restarts stall : ℕ) (b : Broker) (f : Frame)
    → IsKeyless f
    → IsWaiting since restarts stall b
    → on_event json now b (frame f)
      ≡ after_publish json now (
        holding now since b f,
        if ltb (begun now since + stall) now then err recovery_timeout else ok tt,
      )
unfolding on_event
on_event-keyless json now since restarts stall b f h w = ap (after_publish json now) (
    publish-keyless json now b f w.need h
    ∙ held_back_lem now since stall (record b { gate = seen true f }) w.moment w.stall)

-- A picture in time leaves the worker running.
pub on_event-IsWaiting :
    (json : Json) (now since restarts stall : ℕ) (b : Broker) (f : Frame)
    → IsKeyless f
    → now ≤ begun now since + stall
    → IsWaiting since restarts stall b
    → IsWaiting (begun now since) restarts stall (on_event json now b (frame f)).0
on_event-IsWaiting json now since restarts stall b f h early w =
    let q : ltb (begun now since + stall) now ≡ false = ground arith in
    rw (on_event-keyless json now since restarts stall b f h w, q)
      (holding-IsWaiting now since restarts stall b f w)

-- A picture behind the wait ends the worker.
pub on_event-late :
    (json : Json) (now since restarts stall : ℕ) (b : Broker) (f : Frame)
    → IsKeyless f
    → ltb (begun now since + stall) now ≡ true
    → IsWaiting since restarts stall b
    → on_event json now b (frame f)
      ≡ end_life json now
          (holding now since b f)
          (codes "ProtocolError: No usable IDR after recovery timeout")
on_event-late json now since restarts stall b f h late w =
    on_event-keyless json now since restarts stall b f h w
    ∙ ap
        (λ l.
          after_publish json now (holding now since b f, if l then err recovery_timeout else ok tt))
        late
