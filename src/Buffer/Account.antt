-- ===== src/Buffer/Account.antt =====
-- The counters of `FrameBuffer` (src/t6_kvm/buffer.py): no frame is lost unseen.
use nanopc_t6_kvm.Base.{
  ℕ, ◌+◌, ◌≤◌, ◌<◌, ◌≡◌, inl, inr, refl, arith, Bool, true, false, List, [], ◌∷◌, ◌==◌, Bool-cases,
  length, length-append, Result, ok, err, ◌>>=◌,
}
use nanopc_t6_kvm.Protocol.{Frame, au}
use nanopc_t6_kvm.Gate.{RecoveryGate, accept}
use nanopc_t6_kvm.Buffer.{
  BufferError, FrameBuffer, make, full, put_nowait, reset, make_room, put_gated, put,
}
use nanopc_t6_kvm.Buffer.Delivery.{IsValid, Kept, put-Kept}
use nanopc_t6_kvm.Buffer.Run.{
  make-eq-ok, make-IsValid, take_frame, take_frame-IsValid, Call, put_call, get_call, after_put,
  after_put-IsValid, run,
}

-- The frames that a buffer holds or has dropped.
abbrev pub accounted : FrameBuffer → ℕ
accounted b = length b.queue + b.dropped

-- A call of `put` that returned has queued its frame or counted it as dropped, and it has counted
-- each frame that it took from the queue. It returns false only behind a request for a key picture.
abbrev pub Counts : FrameBuffer → Result BufferError (FrameBuffer × Bool) → Type 0
Counts b (ok (b', true)) = (accounted b' ≡ accounted b + 1) × (b.key_requests ≤ b'.key_requests)
Counts b (ok (b', false)) = (accounted b' ≡ accounted b + 1) × (b.key_requests < b'.key_requests)
Counts b (err e) = Unit

put_nowait-Counts :
    (b c : FrameBuffer) (f : Frame)
    → accounted c ≡ accounted b
    → b.key_requests ≤ c.key_requests
    → Counts b (put_nowait c f >>= λ b'. ok (b', true))
put_nowait-Counts b c f same more = elim (Bool-cases (full c)) [
  | inl no_room ↦ rw no_room tt
  | inr room ↦ rw room (omega (arith, length-append c.queue (f ∷ [])), more)
]

make_room-accounted :
    (b : FrameBuffer)
    → (accounted (make_room b) ≡ accounted b) × (b.key_requests ≤ (make_room b).key_requests)
make_room-accounted b = elim (Bool-cases (full b)) [
  | inl no_room ↦ rw no_room (omega arith, omega arith)
  | inr room ↦ rw room (refl, omega arith)
]

put_gated-Counts :
    (b c : FrameBuffer) (f : Frame) (r : RecoveryGate × Bool)
    → accounted c ≡ accounted b
    → b.key_requests ≤ c.key_requests
    → Counts b (put_gated c f r)
put_gated-Counts b c f (g, true) same more = put_nowait-Counts b (record c { gate = g }) f same more
put_gated-Counts b c f (g, false) same more = (omega arith, omega arith)

pub put-Counts : (b : FrameBuffer) (f : Frame) → Counts b (put b f)
unfolding put
put-Counts b f = elim (Bool-cases (f.kind == au)) [
  | inl a ↦
      let (same, more) = make_room-accounted b in
      rw a (put_gated-Counts b (make_room b) f (accept (make_room b).gate f) same more)
  | inr s ↦ rw s (put_nowait-Counts b (reset b) f (omega arith) (omega arith))
]

-- The calls of `put` among some calls.
pub count_puts : List Call → ℕ
count_puts [] = 0
count_puts (put_call f ∷ cs) = count_puts cs + 1
count_puts (get_call ∷ cs) = count_puts cs

abbrev total : List Frame × FrameBuffer → ℕ
total s = length s.0 + accounted s.1

take_frame-total :
    (log : List Frame) (b : FrameBuffer) → total (take_frame (log, b)) ≡ total (log, b)
take_frame-total log b = go b.queue
  where
    go :
        (queue : List Frame)
        → total (take_frame (log, record b { queue = queue }))
          ≡ total (log, record b { queue = queue })
    go [] = refl
    go (f ∷ fs) = omega (arith, length-append log (f ∷ []))

after_put-total :
    (limit : ℕ) (log : List Frame) (b : FrameBuffer) (r : Result BufferError (FrameBuffer × Bool))
    → Kept limit log r
    → Counts b r
    → total (after_put (log, b) r) ≡ total (log, b) + 1
after_put-total limit log b (ok (b', true)) k c = omega (arith, c.0)
after_put-total limit log b (ok (b', false)) k c = omega (arith, c.0)
after_put-total limit log b (err e) k c = absurd k

run-total :
    (limit : ℕ) (cs : List Call) (s : List Frame × FrameBuffer)
    → IsValid limit s.0 s.1
    → total (run cs s) ≡ total s + count_puts cs
unfolding run count_puts
run-total limit [] s v = omega arith
run-total limit (put_call f ∷ cs) s v =
    let kept = put-Kept limit s.0 s.1 f v in
    let next = after_put s (put s.1 f) in
    omega (
      arith,
      after_put-total limit s.0 s.1 (put s.1 f) kept (put-Counts s.1 f),
      run-total limit cs next (after_put-IsValid limit s.0 s.1 (put s.1 f) v kept),
    )
run-total limit (get_call ∷ cs) s v = omega (
  arith,
  take_frame-total s.0 s.1,
  run-total limit cs (take_frame s) (take_frame-IsValid limit s.0 s.1 v),
)

-- Over any order of calls on a new buffer, each frame that was put has been taken by the reader, waits
-- in the queue, or is counted in `dropped`.
run_accounts :
    (capacity : ℕ) (cs : List Call) {b : FrameBuffer}
    → make capacity ≡ ok b
    → let (log, b') = run cs ([], b) in length log + length b'.queue + b'.dropped ≡ count_puts cs
run_accounts capacity cs {b} h =
    let (least, most, e) = make-eq-ok capacity h in
    let none_yet : total ([], b) ≡ 0 = rw (← e) refl in
    omega (arith, none_yet, run-total capacity cs ([], b) (make-IsValid capacity b h))
