-- ===== src/Broker/Publish.antt =====
-- `status` and `publish` of src/t6_kvm/daemon.py: one frame of the worker, handed to every client.
use nanopc_t6_kvm.Base.{
  ℕ, ◌+◌, ◌-◌, Bool, true, false, ◌&&◌, not, List, [], ◌∷◌, ◌++◌, Option, none, some, ltb, leb,
  ◌==◌, if◌then◌else◌, length, drop, list_eq, Result, ok, err, ◌>>=◌,
}
use nanopc_t6_kvm.Value
use nanopc_t6_kvm.Value.{Value, Fields, Json, obj, str, boolean, end, field, truthy}
use nanopc_t6_kvm.Protocol.{Frame, au, status_kind}
use nanopc_t6_kvm.Gate
use nanopc_t6_kvm.Gate.{RecoveryGate, accept}
use nanopc_t6_kvm.Buffer.{BufferError, FrameBuffer, put}
use nanopc_t6_kvm.Broker.{Broker, State, Rate, no_rate, codes, request_key, request_keys}

-- `Frame.status(**value)`
abbrev pub status_frame : Json → Fields → Frame
status_frame json value = record {
  kind = status_kind;
  flags = 0;
  width = 0;
  height = 0;
  epoch = 0;
  sequence = 0;
  pts_us = 0;
  payload = json.dumps (obj value);
}

-- The loop `for buf in tuple(self.buffers): buf.put(frame)`, with the requests for a key picture that
-- the buffers made.
unfoldable pub put_each :
    Frame → List (ℕ × FrameBuffer) → Result BufferError (List (ℕ × FrameBuffer) × ℕ)
put_each f [] = ok ([], 0)
put_each f ((c, buf) ∷ rest) = do
  (buf', done) ← put buf f
  (rest', requests) ← put_each f rest
  ok ((c, buf') ∷ rest', (buf'.key_requests - buf.key_requests) + requests)

pub data PublishError : Type 0 where
  -- "No usable IDR after recovery timeout", a ProtocolError
  recovery_timeout : PublishError
  -- asyncio.QueueFull
  buffer_error : BufferError → PublishError
  -- json.loads on a status that `read_frame` has not validated
  not_json : PublishError

-- A call that ends with a state, after a return or after a raise: what was written stays written.
abbrev pub Run : Type 0
Run = Broker × Result PublishError (Unit {0})

abbrev pub hand_out_end : ℕ → Broker → Result BufferError (List (ℕ × FrameBuffer) × ℕ) → Run
hand_out_end now b (ok (buffers, requests)) =
    (request_keys requests now (record b { buffers = buffers }), ok tt)
hand_out_end now b (err e) = (b, err (buffer_error e))

abbrev pub hand_out : ℕ → Broker → Frame → Run
hand_out now b f = hand_out_end now b (put_each f b.buffers)

abbrev pub offline : State → List ℕ → State
offline s message = record s {
  online = false;
  last_error = some message;
  encoded_fps_observed = no_rate;
}

unfoldable pub status : Json → ℕ → Broker → List ℕ → Run
status json now b message =
    hand_out now (record b { gate = Gate.reset; times = []; state = offline b.state message })
      (status_frame json
        (field (codes "online") (boolean false) (field (codes "message") (str message) end)))

-- `d[key] = value`
abbrev pub set_field : List ℕ → Value → Fields → Fields
set_field key v end = field key v end
set_field key v (field k w fs) =
    if list_eq key k then field k v fs else field k w (set_field key v fs)

abbrev pub is_dmabuf : Value → Bool
is_dmabuf (str s) = list_eq s (codes "DMABUF import")
is_dmabuf _ = false

abbrev pub or_else : {A : Type 0} → Option A → Option A → Option A
or_else none y = y
or_else (some x) y = some x

-- `info`, with its entry "copy" where the worker counts its pictures.
abbrev pub with_copy : Option Value → Value → Fields → Fields
with_copy none copy_mode info = info
with_copy (some frames) copy_mode info =
    set_field (codes "copy") (boolean (not (is_dmabuf copy_mode))) info

abbrev pub get_or : Value → Option Value → Value
get_or default none = default
get_or default (some v) = v

-- The record of a worker's status, from `"input" in info` on.
abbrev pub noted : State → Fields → State
noted s info =
    let frames = Value.get (codes "capture_frames") info in
    record s {
      input = or_else (Value.get (codes "input") info) s.input;
      capture_frames_worker = or_else frames s.capture_frames_worker;
      worker_status = some (with_copy frames s.copy_mode info);
    }

abbrev pub publish_info : Json → ℕ → Broker → Fields → Option Value → Run
publish_info json now b info (some path) =
    (record b { state = record (b.state) { copy_mode = path } }, ok tt)
publish_info json now b info none =
    let b' = record b { state = noted b.state info } in
    if truthy (get_or (boolean false) (Value.get (codes "online") info))
    then (b', ok tt)
    else status json now b'
        (json.to_text (get_or (str (codes "No input signal")) (Value.get (codes "message") info)))

abbrev pub publish_status : Json → ℕ → Broker → Option Value → Run
publish_status json now b (some (obj info)) =
    publish_info json now b info (Value.get (codes "input_path") info)
publish_status json now b _ = (b, err not_json)

-- A picture that the gate held back. The worker is asked for a key; too long without one is an error.
abbrev pub held_back : ℕ → Broker → Run
held_back now b =
    let b1 = request_key now b in
    let b2 = record b1 {
      wait_key_since = if b1.wait_key_since == 0 then now else b1.wait_key_since;
    } in
    if ltb (b2.wait_key_since + b2.stall_micros) now
    then (b2, err recovery_timeout)
    else (b2, ok tt)

-- `times.append(now)` of a deque with `maxlen=600`, and the loop that drops what is older than five
-- seconds.
abbrev pub append_time : ℕ → List ℕ → List ℕ
append_time now times =
    if leb 600 (length times) then drop 1 times ++ (now ∷ []) else times ++ (now ∷ [])

unfoldable pub recent : ℕ → List ℕ → List ℕ
recent now [] = []
recent now (t ∷ ts) = elim (ltb (t + 5000000) now) [ true ↦ recent now ts | false ↦ t ∷ ts ]

-- `(len(times)-1)/(now-times[0])` where that is positive.
abbrev pub rate_of : ℕ → List ℕ → Rate
rate_of now [] = no_rate
rate_of now (t ∷ ts) =
    if ltb 1 (length (t ∷ ts)) && ltb t now
    then record { pictures = length (t ∷ ts) - 1; micros = now - t }
    else no_rate

unfoldable pub window : ℕ → List ℕ → List ℕ
unfolding recent
window now times = recent now (append_time now times)

abbrev pub published_state : State → Frame → Rate → State
published_state s f rate = record s {
  online = true;
  last_error = none;
  output =
      some (record { width = f.width; height = f.height; epoch = f.epoch; sequence = f.sequence });
  encoded_frames = s.encoded_frames + 1;
  encoded_fps_observed = rate;
}

-- A picture that the gate passed.
abbrev pub passed : ℕ → Broker → Frame → Run
passed now b f =
    let times = window now b.times in
    hand_out now
      (record b {
        wait_key_since = 0;
        times = times;
        state = published_state b.state f (rate_of now times);
      })
      f

abbrev pub publish_au : ℕ → Broker → Frame → RecoveryGate × Bool → Run
publish_au now b f (g, true) = passed now (record b { gate = g }) f
publish_au now b f (g, false) = held_back now (record b { gate = g })

unfoldable pub publish : Json → ℕ → Broker → Frame → Run
unfolding status
publish json now b f =
    if not (f.kind == au)
    then publish_status json now b (json.loads f.payload)
    else publish_au now b f (accept b.gate f)
