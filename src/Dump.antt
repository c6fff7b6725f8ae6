-- ===== src/Dump.antt =====
-- The loop of tools/dump_frames.py, which saves a broker's stream: one file for each epoch.
pub mod Saved
use nanopc_t6_kvm.Base.{
  ℕ, ◌+◌, ◌-◌, Bool, true, false, not, List, [], ◌∷◌, ◌++◌, map, Option, none, some, ltb, ◌==◌,
  if◌then◌else◌,
}
use nanopc_t6_kvm.Value.{Value, Json}
use nanopc_t6_kvm.Protocol.{Frame, au}
use nanopc_t6_kvm.Gate
use nanopc_t6_kvm.Gate.{RecoveryGate, accept}

-- `metrics[epoch]`; `last_pts_us` is there from the first picture on.
pub record Metric : Type 0 where
  pub width : ℕ
  pub height : ℕ
  pub count : ℕ
  pub first_pts_us : ℕ
  pub last_pts_us : ℕ

-- The open file of an epoch, with the pictures written to it, and its metrics.
pub record Stream : Type 0 where
  pub epoch : ℕ
  pub written : List Frame
  pub metric : Metric

-- A line of frames.jsonl.
pub record Row : Type 0 where
  pub frame : Frame
  pub status : Option Value
  pub saved : Bool

-- `keys` counts the bytes "K" that were written.
pub record Dump : Type 0 where
  pub gate : RecoveryGate
  pub streams : List Stream
  pub rows : List Row
  pub keys : ℕ

-- Behind the connection, which is asked for a key picture.
abbrev pub begin : Dump
begin = record { gate = Gate.reset; streams = []; rows = []; keys = 1 }

abbrev pub open_stream : Frame → Stream
open_stream f = record {
  epoch = f.epoch;
  written = f ∷ [];
  metric = record {
    width = f.width;
    height = f.height;
    count = 1;
    first_pts_us = f.pts_us;
    last_pts_us = f.pts_us;
  };
}

abbrev pub count_picture : Frame → Metric → Metric
count_picture f m = record m { count = m.count + 1; last_pts_us = f.pts_us }

abbrev pub write : Frame → Stream → Stream
write f s = record s { written = s.written ++ (f ∷ []); metric = count_picture f s.metric }

-- The picture is written to its epoch's file, which is made where there is none.
abbrev pub save : Frame → List Stream → List Stream
save f [] = open_stream f ∷ []
save f (s ∷ ss) = if s.epoch == f.epoch then write f s ∷ ss else s ∷ save f ss

abbrev pub row : Dump → Frame → Option Value → Bool → Dump
row d f status saved = record d {
  rows = d.rows ++ (record { frame = f; status = status; saved = saved } ∷ []);
}

abbrev pub on_picture : Dump → Frame → RecoveryGate × Bool → Dump
on_picture d f (g, true) = row (record d { gate = g; streams = save f d.streams }) f none true
on_picture d f (g, false) = row (record d { gate = g; keys = d.keys + 1 }) f none false

-- One round of the loop. `read_frame` has validated a status, so `json.loads` gives a value.
unfoldable pub on_frame : Json → Dump → Frame → Dump
on_frame json d f =
    if not (f.kind == au)
    then row (record d { gate = Gate.reset; keys = d.keys + 1 }) f (json.loads f.payload) false
    else on_picture d f (accept d.gate f)

unfoldable pub on_frames : Json → Dump → List Frame → Dump
unfolding on_frame
on_frames json d [] = d
on_frames json d (f ∷ fs) = on_frames json (on_frame json d f) fs

-- `saved_au_fps_from_pts` as pictures over microseconds: Python's integers subtract below zero, where
-- the rate is `None` as well.
abbrev pub rate : Metric → Option (ℕ × ℕ)
rate m =
    if ltb m.first_pts_us m.last_pts_us
    then some (m.count - 1, m.last_pts_us - m.first_pts_us)
    else none

-- The end: `none` is the `RuntimeError` of a dump without a picture.
unfoldable pub summary : Dump → Option (List (ℕ × Option (ℕ × ℕ)))
summary d = elim d.streams [
  | [] ↦ none
  | s ∷ ss ↦ some (map (λ t. (t.epoch, rate t.metric)) (s ∷ ss))
]
