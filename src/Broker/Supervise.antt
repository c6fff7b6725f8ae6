-- ===== src/Broker/Supervise.antt =====
-- `worker_loop` and `stop_child` of src/t6_kvm/daemon.py: the lives of the capture worker.
use nanopc_t6_kvm.Base.{ℕ, ◌+◌, true, false, List, [], ◌∷◌, Option, none, some, ok, err}
use nanopc_t6_kvm.Value.{Json}
use nanopc_t6_kvm.Protocol.{Frame}
use nanopc_t6_kvm.Broker.{Broker, Worker, codes}
use nanopc_t6_kvm.Broker.Publish.{Run, recovery_timeout, buffer_error, not_json, status, publish}

-- What the loop waits for: a frame from `read_frame`, or one of the exceptions that it handles, with
-- its text. `started` is the return of `create_subprocess_exec`; from `pipe_closed` on, a write to the
-- worker's standard input raises; `exited` sets the process's `returncode`.
pub data Event : Type 0 where
  started pipe_closed exited : Event
  frame : Frame → Event
  failed : List ℕ → Event

-- The head of the loop, up to the start of the process.
unfoldable pub begin_life : Json → ℕ → Broker → Run
begin_life json now b =
    status json now (record b { key_time = 0; wait_key_since = 0 })
      (codes "Starting capture worker")

-- The `except` clause and the `finally` block: the child is stopped, and the restart is counted.
abbrev pub buried : Run → Run
buried (b, r) =
    (record b { proc = none; state = record (b.state) { restarts = b.state.restarts + 1 } }, r)

unfoldable pub end_life : Json → ℕ → Broker → List ℕ → Run
end_life json now b message = buried (status json now b message)

-- A protocol error that `publish` raised is handled like the worker's own failures; the loop does not
-- catch the others, which end the task behind the `finally` block.
abbrev pub after_publish : Json → ℕ → Run → Run
after_publish json now (b, ok u) = (b, ok u)
after_publish json now (b, err recovery_timeout) =
    end_life json now b (codes "ProtocolError: No usable IDR after recovery timeout")
after_publish json now (b, err (buffer_error e)) = (record b { proc = none }, err (buffer_error e))
after_publish json now (b, err not_json) = (record b { proc = none }, err not_json)

abbrev pub close_pipe : Option Worker → Option Worker
close_pipe none = none
close_pipe (some w) = some (record w { pipe_open = false })

abbrev pub end_process : Option Worker → Option Worker
end_process none = none
end_process (some w) = some (record w { running = false })

-- The loop behind one wait.
unfoldable pub on_event : Json → ℕ → Broker → Event → Run
unfolding begin_life end_life
on_event json now b started =
    (record b { proc = some (record { running = true; pipe_open = true; keys = 0 }) }, ok tt)
on_event json now b pipe_closed = (record b { proc = close_pipe b.proc }, ok tt)
on_event json now b exited = (record b { proc = end_process b.proc }, ok tt)
on_event json now b (frame f) = after_publish json now (publish json now b f)
on_event json now b (failed message) = end_life json now b message

-- How a child reacts: it has ended before, ends within three seconds of SIGTERM, or needs SIGKILL.
pub data Child : Type 0 where
  ended prompt stubborn : Child

pub data Signal : Type 0 where
  sigterm sigkill : Signal

-- The signals that `stop_child` sends, until the child has ended; `none` is no child.
unfoldable pub stop_child : Option Child → List Signal
stop_child none = []
stop_child (some ended) = []
stop_child (some prompt) = sigterm ∷ []
stop_child (some stubborn) = sigterm ∷ sigkill ∷ []
