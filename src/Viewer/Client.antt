-- ===== src/Viewer/Client.antt =====
-- `T6StreamerClient` of src/t6_kvm/kvmd_adapter.py: the KVM daemon's reader of the broker's frames.
pub mod Received
use nanopc_t6_kvm.Base.{ℕ, ◌+◌, Bool, true, ◌&&◌, not, List, [], ◌∷◌, ltb, ◌==◌, if◌then◌else◌}
use nanopc_t6_kvm.Protocol.{Frame, au}
use nanopc_t6_kvm.Gate
use nanopc_t6_kvm.Gate.{RecoveryGate, accept}

-- `writer` tells that there is a writer; `keys` counts the bytes "K" that were written to it.
pub record Client : Type 0 where
  pub writer : Bool
  pub last_request : ℕ
  pub gate : RecoveryGate
  pub keys : ℕ

abbrev pub request_key : ℕ → Client → Client
request_key now c =
    if c.writer && ltb (c.last_request + 30000) now
    then record c { keys = c.keys + 1; last_request = now }
    else c

-- The head of `reading`, behind the connection.
abbrev pub begin_reading : ℕ → Client
begin_reading now =
    request_key now (record { writer = true; last_request = 0; gate = Gate.reset; keys = 0 })

-- How `receive` ends: it returns `kvmd()` of a frame, raises StreamerTempError with a status, or waits.
pub data Answer : Type 0 where
  returned : Frame → Answer
  temp_error : List ℕ → Answer
  waits : Answer

-- The frames that are read, each with its time: the answer, the client, and the frames left.
abbrev pub Receipt : Type 0
Receipt = Answer × Client × List (ℕ × Frame)

abbrev pub on_frame : Frame → Client → List (ℕ × Frame) → RecoveryGate × Bool → Receipt → Receipt
on_frame f c rest (g, pass) later =
    if not (f.kind == au)
    then (temp_error f.payload, c, rest)
    else if pass
    then (returned f, record c { gate = g }, rest)
    else later

unfoldable pub read_on : List (ℕ × Frame) → Client → Receipt
read_on [] c = (waits, c, [])
read_on ((now, f) ∷ rest) c =
    let r = accept c.gate f in
    let later = read_on rest (request_key now (record c { gate = r.0 })) in
    on_frame f c rest r later

unfoldable pub receive : ℕ → Bool → List (ℕ × Frame) → Client → Receipt
receive now key_required frames c =
    if key_required
    then read_on frames (request_key now (record c { gate = Gate.reset }))
    else read_on frames c

-- The frames that calls of `receive` return, up to the first that returns none.
unfoldable pub received : List (ℕ × Bool) → List (ℕ × Frame) → Client → List Frame
received [] frames c = []
received ((now, key_required) ∷ calls) frames c = elim (receive now key_required frames c).0 [
  | returned f ↦ let r = receive now key_required frames c in f ∷ received calls r.2 r.1
  | temp_error message ↦ []
  | waits ↦ []
]
