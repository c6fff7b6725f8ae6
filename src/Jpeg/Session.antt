-- ===== src/Jpeg/Session.antt =====
-- The collector and the receiver of `T6JpegStreamerClient` (src/t6_kvm/kvmd_adapter.py), in any order.
use nanopc_t6_kvm.Base.{
  ℕ, ◌≤◌, ◌≡◌, ◌⊎◌, inl, inr, refl, arith, Bool, true, false, List, [], ◌∷◌, ◌++◌, Option, none,
  some, Bool-cases, length, Result, ok, err,
}
use nanopc_t6_kvm.Protocol.{Frame}
use nanopc_t6_kvm.Gate.Decodable.{CanShow, IsDecodable, after, last_after, last_after-append}
use nanopc_t6_kvm.Buffer.{BufferError, FrameBuffer, fresh, get}
use nanopc_t6_kvm.Buffer
use nanopc_t6_kvm.Buffer.Delivery.{IsValid, Kept, put-Kept, reset-IsValid}
use nanopc_t6_kvm.Buffer.Run.{take_frame-IsValid, make-IsValid}
use nanopc_t6_kvm.Viewer.{from_kvmd}
use nanopc_t6_kvm.Jpeg.{
  Decoder, Pending, begin_pending, Read, got, raised, end_collect, after_put, collect, Receiver,
  begin_receiver, Answer, jpeg, nothing, temp_error, note_answer, on_item,
}
use nanopc_t6_kvm.Jpeg.Fed.{IsFed, choose_decoder-IsFed}

-- The collector and the receiver. `taken` is what the receiver has taken from the queue.
pub record Session : Type 0 where
  pub taken : List Frame
  pub pending : Pending
  pub receiver : Receiver

pub data Call : Type 0 where
  collect_call : Read → Call
  receive_call : ℕ → Call

abbrev pub begin_session : Session
begin_session = record { taken = []; pending = begin_pending; receiver = begin_receiver }

-- The exception, where it is what the queue holds, is raised: nothing else changes.
abbrev pub received : (D : Decoder) → ℕ → Session → Option (Frame × FrameBuffer) → Session
received D now s none = s
received D now s (some (f, b)) = record {
  taken = s.taken ++ (f ∷ []);
  pending = record (s.pending) { buffer = b };
  receiver = (on_item D now f s.receiver).0;
}

abbrev pub step : (D : Decoder) → Call → Session → Session
step D (collect_call r) s = record s { pending = collect r s.pending }
step D (receive_call now) s = received D now s (get s.pending.buffer)

unfoldable pub run : (D : Decoder) → List Call → Session → Session
run D [] s = s
run D (c ∷ cs) s = run D cs (step D c s)

pub record IsGood (s : Session) : Type 0 where
  pub valid : IsValid 8 s.taken s.pending.buffer
  pub stopped : (s.pending.ended ≡ false) ⊎ (s.pending.buffer.queue ≡ [])
  pub fed : IsFed (last_after none s.taken) s.receiver

-- What is left of a collector.
Collected : List Frame → Pending → Type 0
Collected log p = IsValid 8 log p.buffer × ((p.ended ≡ false) ⊎ (p.buffer.queue ≡ []))

end_collect-Collected :
    (log : List Frame) (p : Pending) → IsValid 8 log p.buffer → Collected log (end_collect p)
unfolding Collected
end_collect-Collected log p v = (reset-IsValid 8 log p.buffer v, inr refl)

stopped_empty :
    (p : Pending) → p.ended ≡ true → (p.ended ≡ false) ⊎ (p.buffer.queue ≡ []) → p.buffer.queue ≡ []
stopped_empty p over (inl runs) = absurd (ground (arith, over, runs))
stopped_empty p over (inr empty) = empty

collect-Collected :
    (r : Read) (log : List Frame) (p : Pending)
    → IsValid 8 log p.buffer
    → (p.ended ≡ false) ⊎ (p.buffer.queue ≡ [])
    → Collected log (collect r p)
unfolding collect Collected
collect-Collected (got picture) log p v s = elim (Bool-cases p.ended) [
  | inl over ↦ rw over (v, inr (stopped_empty p over s))
  | inr runs ↦
      rw runs (
        go (Buffer.put p.buffer (from_kvmd picture))
          (put-Kept 8 log p.buffer (from_kvmd picture) v))
]
  where
    go :
        (r : Result BufferError (FrameBuffer × Bool))
        → Kept 8 log r
        → Collected log (after_put (record p { ended = false }) r)
    go (ok (b, done)) k = (k, inl refl)
    go (err e) k = absurd k
collect-Collected raised log p v s = elim (Bool-cases p.ended) [
  | inl over ↦ rw over (v, inr (stopped_empty p over s))
  | inr runs ↦ rw runs (end_collect-Collected log p v)
]

note_answer-IsFed :
    (D : Decoder) (last : Option Frame) (now : ℕ) (r : Receiver) (a : Answer D.Image)
    → IsFed last r
    → IsFed last (note_answer D now r a).0
note_answer-IsFed D last now r (jpeg i ts) v = record {
  decodable = v.decodable;
  last_fed = v.last_fed;
  epoch = v.epoch;
}
note_answer-IsFed D last now r nothing v = v
note_answer-IsFed D last now r temp_error v = record {
  decodable = v.decodable;
  last_fed = v.last_fed;
  epoch = v.epoch;
}

IsDecodable-right :
    (last : Option Frame) (xs ys : List Frame)
    → IsDecodable last (xs ++ ys)
    → IsDecodable (last_after last xs) ys
IsDecodable-right last [] ys h = h
IsDecodable-right last (x ∷ xs) ys h = IsDecodable-right (after x) xs ys h.1

receive-IsGood :
    (D : Decoder) (now : ℕ) (s : Session)
    → IsGood s
    → IsGood (received D now s (get s.pending.buffer))
unfolding on_item
receive-IsGood D now s g = go s.pending.buffer.queue refl
  where
    go :
        (queue : List Frame)
        → s.pending.buffer.queue ≡ queue
        → IsGood (received D now s (get (record (s.pending.buffer) { queue = queue })))
    go [] e = g
    go (f ∷ fs) e =
        let show : CanShow (last_after none s.taken) f =
          (IsDecodable-right none s.taken (f ∷ fs) (rw e at (g.valid).decodable)).0 in
        let v : IsValid 8 s.taken (record (s.pending.buffer) { queue = f ∷ fs }) =
          rw (← e) (g.valid) in
        let runs : s.pending.ended ≡ false = still e (g.stopped) in
        record {
          valid = take_frame-IsValid 8 s.taken (record (s.pending.buffer) { queue = f ∷ fs }) v;
          stopped = inl runs;
          fed = rw (last_after-append none s.taken (f ∷ [])) (
              note_answer-IsFed D (after f) now _ _
                (choose_decoder-IsFed (last_after none s.taken) s.receiver f (g.fed) show));
        }
      where
        still :
            s.pending.buffer.queue ≡ f ∷ fs
            → (s.pending.ended ≡ false) ⊎ (s.pending.buffer.queue ≡ [])
            → s.pending.ended ≡ false
        still h (inl runs) = runs
        still h (inr empty) = cc

run-IsGood : (D : Decoder) (cs : List Call) (s : Session) → IsGood s → IsGood (run D cs s)
unfolding run Collected
run-IsGood D [] s g = g
run-IsGood D (collect_call r ∷ cs) s g =
    let (v, stopped) = collect-Collected r s.taken s.pending g.valid g.stopped in
    run-IsGood D cs (record s { pending = collect r s.pending })
      (record { valid = v; stopped = stopped; fed = g.fed })
run-IsGood D (receive_call now ∷ cs) s g =
    run-IsGood D cs (received D now s (get s.pending.buffer)) (receive-IsGood D now s g)

begin-IsGood : IsGood begin_session
begin-IsGood = record {
  valid = make-IsValid 8 (fresh 8) refl;
  stopped = inl refl;
  fed = record { decodable = tt; last_fed = refl; epoch = λ p h. cc };
}

-- Whatever the decoder does, and in whatever order pictures arrive, the collector ends and frames are
-- received: what a decoder was fed since it was made can be decoded from its first packet on, the queue
-- holds at most eight frames, and none where the collector has ended.
pub fed-IsDecodable :
    (D : Decoder) (cs : List Call)
    → let s = run D cs begin_session in
      IsDecodable none s.receiver.fed
      × (length s.pending.buffer.queue ≤ 8)
      × ((s.pending.ended ≡ false) ⊎ (s.pending.buffer.queue ≡ []))
fed-IsDecodable D cs =
    let g = run-IsGood D cs begin_session begin-IsGood in
    ((g.fed).decodable, omega (arith, (g.valid).bounded, (g.valid).limited), g.stopped)
