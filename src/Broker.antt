-- ===== src/Broker.antt =====
-- The state of `Broker` in src/t6_kvm/daemon.py, and its requests for a key picture. Times are in
-- microseconds of the monotonic clock; an operation takes the time at which it runs.
pub mod Publish
pub mod Clients
pub mod Supervise
pub mod KeyRate
pub mod Record
pub mod Window
pub mod Waiting
pub mod Recovery
pub mod Streams
pub mod Interleaving
pub mod Reachable
pub mod Delivered
use nanopc_t6_kvm.Base.{
  ℕ, zero, suc, ◌+◌, Bool, false, ◌&&◌, List, [], ◌∷◌, Option, none, some, leb, if◌then◌else◌,
}
use nanopc_t6_kvm.Value.{Value, Fields, str}
use nanopc_t6_kvm.Protocol.{Frame}
use nanopc_t6_kvm.Gate
use nanopc_t6_kvm.Gate.{RecoveryGate}
use nanopc_t6_kvm.Buffer.{FrameBuffer}
use Prim.Native.Char.{code}
use Prim.Native.String.{String}

-- The code points of a text.
abbrev pub codes : String → List ℕ
codes String.[] = []
codes (String.◌∷◌ c s) = code c ∷ codes s

-- The worker process: `running` is `returncode is None`, `pipe_open` that a write to its standard
-- input does not raise, and `keys` counts the bytes "K" that were written there.
pub record Worker : Type 0 where
  pub running : Bool
  pub pipe_open : Bool
  pub keys : ℕ

pub record Output : Type 0 where
  pub width : ℕ
  pub height : ℕ
  pub epoch : ℕ
  pub sequence : ℕ

-- A rate as the quotient of pictures and microseconds, not yet rounded.
pub record Rate : Type 0 where
  pub pictures : ℕ
  pub micros : ℕ

abbrev pub no_rate : Rate
no_rate = record { pictures = 0; micros = 1 }

-- The dictionary `state`, without its constant entries.
pub record State : Type 0 where
  pub online : Bool
  pub input : Option Value
  pub output : Option Output
  pub encoded_frames : ℕ
  pub encoded_fps_observed : Rate
  pub restarts : ℕ
  pub last_error : Option (List ℕ)
  pub copy_mode : Value
  pub capture_frames_worker : Option Value
  pub worker_status : Option Fields

-- `buffers` holds the buffer of each client under the client's number; `clients` is the set of the
-- clients' tasks.
pub record Broker : Type 0 where
  pub queue_frames : ℕ
  pub stall_micros : ℕ
  pub proc : Option Worker
  pub buffers : List (ℕ × FrameBuffer)
  pub clients : List ℕ
  pub key_time : ℕ
  pub wait_key_since : ℕ
  pub gate : RecoveryGate
  pub times : List ℕ
  pub state : State

abbrev pub initial_state : State
initial_state = record {
  online = false;
  input = none;
  output = none;
  encoded_frames = 0;
  encoded_fps_observed = no_rate;
  restarts = 0;
  last_error = some (codes "Not started");
  copy_mode = str (codes "CPU-copy");
  capture_frames_worker = none;
  worker_status = none;
}

-- `__init__`, of a valid configuration.
abbrev pub create : ℕ → ℕ → Broker
create queue_frames stall_micros = record {
  queue_frames = queue_frames;
  stall_micros = stall_micros;
  proc = none;
  buffers = [];
  clients = [];
  key_time = 0;
  wait_key_since = 0;
  gate = Gate.reset;
  times = [];
  state = initial_state;
}

-- `stdin.write(b"K")`: a broken pipe is passed over, and leaves `key_time`.
abbrev pub write_key : ℕ → Broker → Worker → Broker
write_key now b w =
    if w.running && leb (b.key_time + 30000) now && w.pipe_open
    then record b { proc = some (record w { keys = w.keys + 1 }); key_time = now }
    else b

abbrev pub request_by : Option Worker → ℕ → Broker → Broker
request_by none now b = b
request_by (some w) now b = write_key now b w

unfoldable pub request_key : ℕ → Broker → Broker
request_key now b = request_by b.proc now b

-- The calls of `request_key` that a number of buffers made.
unfoldable pub request_keys : ℕ → ℕ → Broker → Broker
request_keys zero now b = b
request_keys (suc n) now b = request_keys n now (request_key now b)
