-- ===== src/Viewer/Shown.antt =====
-- What a viewer is shown by `VncFrameBuffer` of src/t6_kvm/kvmd_adapter.py, over any order of calls.
use nanopc_t6_kvm.Base.{
  ℕ, ◌≤◌, ◌≡◌, ◌≢◌, ◌⊎◌, inl, inr, refl, arith, Bool, List, [], ◌∷◌, ◌++◌, none, some, length,
  Result, ok, err,
}
use nanopc_t6_kvm.Value.{Json}
use nanopc_t6_kvm.Protocol.{Frame, ProtocolError}
use nanopc_t6_kvm.Protocol.Validate.{validate}
use nanopc_t6_kvm.Gate.Decodable.{IsDecodable, IsDecodable-left}
use nanopc_t6_kvm.Buffer.{BufferError, FrameBuffer, fresh, reset}
use nanopc_t6_kvm.Buffer
use nanopc_t6_kvm.Buffer.Delivery.{IsValid, Kept, put-Kept, reset-IsValid}
use nanopc_t6_kvm.Buffer.Run.{take_frame, take_frame-IsValid, make-IsValid}
use nanopc_t6_kvm.Viewer.{
  next_update, shown, from_kvmd, Update, picture, screen, VncFrameBuffer, buffer_error, Put,
  put_inner, put_valid, waiting, put,
}

-- The frames that the viewer has taken, and the queue.
abbrev pub Session : Type 0
Session = List Frame × VncFrameBuffer

pub data Call : Type 0 where
  put_call : Update → Call
  get_call : Call

-- A call of `get` takes the frame that `next_update` shows.
abbrev pub taken : Session → Session
taken (log, b) = let s = take_frame (log, b.inner) in (s.0, record b { inner = s.1 })

-- Either `get` waits, or it answers by what is shown for the frame taken.
abbrev pub Answers : Session → Type 0
Answers s =
    (next_update s.1 ≡ none)
    ⊎ ((f : Frame) × (next_update s.1 ≡ some (shown s.1.jpeg f, (taken s).1))
        × ((taken s).0 ≡ s.0 ++ (f ∷ [])))

taken-Answers : (s : Session) → Answers s
unfolding next_update
taken-Answers (log, b) = go b.inner.queue
  where
    go :
        (queue : List Frame)
        → Answers (log, record b { inner = record (b.inner) { queue = queue } })
    go [] = inl refl
    go (f ∷ fs) = inr (f, refl, refl)

unfoldable pub run : Json → List Call → Session → Session
run json [] s = s
run json (put_call u ∷ cs) s = run json cs (s.0, (put json s.1 u).0)
run json (get_call ∷ cs) s = run json cs (taken s)

-- What a call of `put` has done.
pub record IsServed (limit : ℕ) (log : List Frame) (r : Put) : Type 0 where
  pub valid : IsValid limit log r.0.inner
  pub no_buffer_error : (e : BufferError) → r.1 ≢ err (buffer_error e)

put_inner-IsServed :
    (limit : ℕ) (log : List Frame) (b : VncFrameBuffer)
    (r : Result BufferError (FrameBuffer × Bool))
    → Kept limit log r
    → IsServed limit log (put_inner b r)
put_inner-IsServed limit log b (ok (inner, done)) k = record {
  valid = k;
  no_buffer_error = λ e p. cc;
}
put_inner-IsServed limit log b (err e) k = absurd k

put-IsServed :
    (json : Json) (limit : ℕ) (log : List Frame) (b : VncFrameBuffer) (u : Update)
    → IsValid limit log b.inner
    → IsServed limit log (put json b u)
unfolding put
put-IsServed json limit log b (picture p) v = go (validate json (from_kvmd p))
  where
    go : (r : Result ProtocolError Frame) → IsServed limit log (put_valid b r)
    go (ok f) =
        put_inner-IsServed limit log b (Buffer.put b.inner f) (put-Kept limit log b.inner f v)
    go (err e) = record { valid = v; no_buffer_error = λ e p. cc }
put-IsServed json limit log b (screen value) v =
    put_inner-IsServed limit log (record b { inner = reset b.inner; jpeg = some value }) _
      (put-Kept limit log (reset b.inner) (waiting json) (reset-IsValid limit log b.inner v))

run-IsValid :
    (json : Json) (limit : ℕ) (calls : List Call) (s : Session)
    → IsValid limit s.0 s.1.inner
    → let t = run json calls s in IsValid limit t.0 t.1.inner
unfolding run
run-IsValid json limit [] s v = v
run-IsValid json limit (put_call u ∷ cs) s v =
    run-IsValid json limit cs (s.0, (put json s.1 u).0) (put-IsServed json limit s.0 s.1 u v).valid
run-IsValid json limit (get_call ∷ cs) s v =
    run-IsValid json limit cs (taken s) (take_frame-IsValid limit s.0 s.1.inner v)

-- `VncFrameBuffer` with a new queue.
abbrev pub open_buffer : ℕ → VncFrameBuffer
open_buffer capacity = record { inner = fresh capacity; jpeg = none }

-- Let a queue of a valid capacity be filled and emptied in any order, by pictures and waiting screens.
-- The frames behind what the viewer is shown are a stream that a decoder can show, the queue holds no
-- more than its capacity, no `put` finds it full, and `get` waits or shows the frame taken next.
pub shown-IsDecodable :
    (json : Json) (capacity : ℕ) (calls : List Call) (u : Update) (e : BufferError)
    → Buffer.make capacity ≡ ok (fresh capacity)
    → let (log, b) = run json calls ([], open_buffer capacity) in
      IsDecodable none log
      × (length b.inner.queue ≤ capacity)
      × ((put json b u).1 ≢ err (buffer_error e))
      × Answers (log, b)
shown-IsDecodable json capacity calls u e m =
    let s = run json calls ([], open_buffer capacity) in
    let v =
      run-IsValid json capacity calls ([], open_buffer capacity)
        (make-IsValid capacity (fresh capacity) m) in
    (
      IsDecodable-left none s.0 s.1.inner.queue v.decodable,
      omega (arith, v.bounded, v.limited),
      (put-IsServed json capacity s.0 s.1 u v).no_buffer_error e,
      taken-Answers s,
    )
