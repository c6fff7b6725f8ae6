-- ===== src/Buffer/Run.antt =====
-- A `FrameBuffer` (src/t6_kvm/buffer.py) between a producer and a consumer, over any order of calls.
use nanopc_t6_kvm.Base.{
  ℕ, ◌≤◌, ◌≡◌, ◌≢◌, refl, sym, arith, Bool, ◌&&◌, not, List, [], ◌∷◌, ◌++◌, none, some, leb, length,
  Result, ok, err, raise_if-eq-ok, ok-injective,
}
use nanopc_t6_kvm.Protocol.{Frame}
use nanopc_t6_kvm.Gate.Decodable.{IsDecodable, IsDecodable-left, Tracks-reset}
use nanopc_t6_kvm.Buffer.{BufferError, queue_full, bad_capacity, FrameBuffer, make, fresh, put, get}
use nanopc_t6_kvm.Buffer.Delivery.{IsValid, Kept, put-Kept}
use mathlib.Core.Path.{subst}
use mathlib.Core.List.{append_assoc}

-- The reader takes the oldest frame of the queue.
abbrev pub take_frame : List Frame × FrameBuffer → List Frame × FrameBuffer
take_frame (log, b) = elim (get b) [ none ↦ (log, b) | some (f, b') ↦ (log ++ (f ∷ []), b') ]

pub take_frame-IsValid :
    (limit : ℕ) (log : List Frame) (b : FrameBuffer)
    → IsValid limit log b
    → IsValid limit (take_frame (log, b)).0 (take_frame (log, b)).1
take_frame-IsValid limit log b v = go b.queue v
  where
    go :
        (queue : List Frame)
        → IsValid limit log (record b { queue = queue })
        → let s = take_frame (log, record b { queue = queue }) in IsValid limit s.0 s.1
    go [] v = v
    go (f ∷ fs) v =
        let whole : log ++ (f ∷ fs) ≡ (log ++ (f ∷ [])) ++ fs =
          sym (append_assoc log (f ∷ []) fs) in
        record {
          limited = v.limited;
          capacity = v.capacity;
          bounded = omega (arith, v.bounded);
          decodable = rw whole at v.decodable;
          tracks = rw whole at v.tracks;
        }

-- The calls that a producer and a consumer make on one buffer.
pub data Call : Type 0 where
  put_call : Frame → Call
  get_call : Call

-- A `put` that raised would leave the buffer as it is.
abbrev pub after_put :
    List Frame × FrameBuffer → Result BufferError (FrameBuffer × Bool) → List Frame × FrameBuffer
after_put (log, b) (ok (b', done)) = (log, b')
after_put (log, b) (err e) = (log, b)

pub after_put-IsValid :
    (limit : ℕ) (log : List Frame) (b : FrameBuffer) (r : Result BufferError (FrameBuffer × Bool))
    → IsValid limit log b
    → Kept limit log r
    → IsValid limit (after_put (log, b) r).0 (after_put (log, b) r).1
after_put-IsValid limit log b (ok (b', done)) v k = k
after_put-IsValid limit log b (err e) v k = absurd k

unfoldable pub run : List Call → List Frame × FrameBuffer → List Frame × FrameBuffer
run [] s = s
run (put_call f ∷ cs) s = run cs (after_put s (put s.1 f))
run (get_call ∷ cs) s = run cs (take_frame s)

run-IsValid :
    (limit : ℕ) (cs : List Call) (s : List Frame × FrameBuffer)
    → IsValid limit s.0 s.1
    → IsValid limit (run cs s).0 (run cs s).1
unfolding run
run-IsValid limit [] s v = v
run-IsValid limit (put_call f ∷ cs) s v =
    run-IsValid limit cs (after_put s (put s.1 f))
      (after_put-IsValid limit s.0 s.1 (put s.1 f) v (put-Kept limit s.0 s.1 f v))
run-IsValid limit (get_call ∷ cs) s v =
    run-IsValid limit cs (take_frame s) (take_frame-IsValid limit s.0 s.1 v)

pub make-eq-ok :
    (capacity : ℕ) {b : FrameBuffer}
    → make capacity ≡ ok b
    → (1 ≤ capacity) × (capacity ≤ 8) × (fresh capacity ≡ b)
make-eq-ok capacity h =
    let (in_range, same) =
      raise_if-eq-ok (not (leb 1 capacity && leb capacity 8)) bad_capacity (ok (fresh capacity))
        h in
    (ground (arith, in_range), ground (arith, in_range), ok-injective same)

pub make-IsValid : (capacity : ℕ) (b : FrameBuffer) → make capacity ≡ ok b → IsValid capacity [] b
make-IsValid capacity b h =
    let (least, most, e) = make-eq-ok capacity h in
    subst (IsValid capacity []) e (record {
      limited = refl;
      capacity = least;
      bounded = omega arith;
      decodable = tt;
      tracks = Tracks-reset none;
    })

-- From a new buffer of any permitted capacity, and over any order of calls, what the reader has taken
-- is a stream that a decoder can show, no more than `capacity` frames wait, and `put` never meets a
-- full queue.
pub run_delivers :
    (capacity : ℕ) (cs : List Call) (f : Frame) {b : FrameBuffer}
    → make capacity ≡ ok b
    → let (log, b') = run cs ([], b) in
      IsDecodable none log × (length b'.queue ≤ capacity) × (put b' f ≢ err queue_full)
run_delivers capacity cs f {b} h =
    let v = run-IsValid capacity cs ([], b) (make-IsValid capacity b h) in
    let s = run cs ([], b) in
    (
      IsDecodable-left none s.0 s.1.queue v.decodable,
      omega (arith, v.limited, v.bounded),
      λ e. rw e at (put-Kept capacity s.0 s.1 f v),
    )
