-- ===== src/Jpeg.antt =====
-- `T6JpegStreamerClient` of src/t6_kvm/kvmd_adapter.py: a queue between the reader of the broker's
-- frames and a decoder, which is made anew for each key picture and each epoch.
pub mod Fed
pub mod Session
pub mod Cover
use nanopc_t6_kvm.Base.{
  ℕ, zero, suc, ◌+◌, ◌-◌, ◌*◌, Bool, true, false, ◌||◌, not, List, [], ◌∷◌, ◌++◌, map, Option, none,
  some, ltb, leb, ◌==◌, if◌then◌else◌, Result, ok, err,
}
use nanopc_t6_kvm.Protocol.{Frame, ProtocolError, is_key}
use nanopc_t6_kvm.Gate
use nanopc_t6_kvm.Buffer.{BufferError, FrameBuffer, bad_capacity, fresh}
use nanopc_t6_kvm.Buffer
use nanopc_t6_kvm.Viewer.{Picture, kvmd, from_kvmd}

-- The package av and the clock's answers: `decode` gives the pictures that a decoder with these packets
-- behind it shows for the next; `none` is an FFmpegError.
pub record Decoder : Type 1 where
  pub Image : Type 0
  pub decode : List (List ℕ) → List ℕ → Option (List Image)
  pub width : Image → ℕ
  pub height : Image → ℕ

-- The pieces of at most 2048 along one axis: `range(0, size, 2048)` with `min(x+2048, size)`, on fuel.
abbrev pub cuts : ℕ → ℕ → ℕ → List (ℕ × ℕ)
cuts zero start size = []
cuts (suc fuel) start size =
    let rest = cuts fuel (start + 2048) size in
    let stop = if leb (start + 2048) size then start + 2048 else size in
    if ltb start size then (start, stop) ∷ rest else []

-- The axis of `size`; each cut moves on by 2048, so `size` cuts are enough.
unfoldable pub axis : ℕ → List (ℕ × ℕ)
axis size = cuts size 0 size

-- A tile: its place and its size.
pub record Tile : Type 0 where
  pub x : ℕ
  pub y : ℕ
  pub tile_width : ℕ
  pub tile_height : ℕ

abbrev pub tile : ℕ × ℕ → ℕ × ℕ → Tile
tile (top, bottom) (left, right) = record {
  x = left;
  y = top;
  tile_width = right - left;
  tile_height = bottom - top;
}

abbrev pub tiles_from : List (ℕ × ℕ) → List (ℕ × ℕ) → List Tile
tiles_from [] columns = []
tiles_from (r ∷ rows) columns = map (tile r) columns ++ tiles_from rows columns

unfoldable pub tiles : ℕ → ℕ → List Tile
unfolding axis
tiles width height = tiles_from (axis height) (axis width)

-- An item of the queue `pending`: a frame, or the exception with which the collector ended.
-- `ended` is the exception; it is put into the empty queue, so it stands behind no frame.
pub record Pending : Type 0 where
  pub buffer : FrameBuffer
  pub ended : Bool

abbrev pub begin_pending : Pending
begin_pending = record { buffer = fresh 8; ended = false }

-- What `collect` meets: a picture that `read(False)` returns, or an exception.
pub data Read : Type 0 where
  got : Picture → Read
  raised : Read

-- The end of `collect`: every frame is dropped, and the exception is the only item.
abbrev pub end_collect : Pending → Pending
end_collect p = record { buffer = Buffer.reset p.buffer; ended = true }

abbrev pub after_put : Pending → Result BufferError (FrameBuffer × Bool) → Pending
after_put p (ok (b, done)) = record p { buffer = b }
after_put p (err e) = end_collect p

-- One round of `collect`; the task has ended behind an exception.
unfoldable pub collect : Read → Pending → Pending
collect (got picture) p =
    if p.ended then p else after_put p (Buffer.put p.buffer (from_kvmd picture))
collect raised p = if p.ended then p else end_collect p

-- `fed` is what the decoder was given since it was made; `last_jpeg` in microseconds.
pub record Receiver : Type 0 where
  pub fed : List Frame
  pub epoch : Option ℕ
  pub last_jpeg : ℕ
  pub key_requests : ℕ

-- `reading` makes a decoder at its head.
abbrev pub begin_receiver : Receiver
begin_receiver = record { fed = []; epoch = none; last_jpeg = 0; key_requests = 0 }

abbrev pub same_epoch : Option ℕ → ℕ → Bool
same_epoch none e = false
same_epoch (some e') e = e' == e

-- A new decoder for a key picture or another epoch.
abbrev pub choose_decoder : Receiver → Frame → Receiver
choose_decoder r f =
    if not (same_epoch r.epoch f.epoch) || is_key f
    then record r { fed = []; epoch = some f.epoch }
    else r

abbrev pub feed : Receiver → Frame → Receiver
feed r f = record r { fed = r.fed ++ (f ∷ []) }

-- What one frame gives: the tiles of its last picture, nothing, or StreamerTempError.
pub data Answer (I : Type 0) : Type 0 where
  jpeg : I → List Tile → Answer I
  nothing : Answer I
  temp_error : Answer I

module _ (D : Decoder) where
  abbrev pub last_of : List D.Image → Option D.Image
  last_of [] = none
  last_of (i ∷ is) = elim (last_of is) [ none ↦ some i | some j ↦ some j ]

  -- `convert`: at most fifteen pictures a second are made.
  abbrev pub convert : Bool → Option (List D.Image) → Answer D.Image
  convert emit none = temp_error
  convert emit (some pictures) = elim (last_of pictures) [
    | none ↦ nothing
    | some i ↦ if emit then jpeg i (tiles (D.width i) (D.height i)) else nothing
  ]

  abbrev pub note_answer : ℕ → Receiver → Answer D.Image → Receiver × Answer D.Image
  note_answer now r (jpeg i ts) = (record r { last_jpeg = now }, jpeg i ts)
  note_answer now r nothing = (r, nothing)
  note_answer now r temp_error = (record r { key_requests = r.key_requests + 1 }, temp_error)

  -- `now - last_jpeg >= 1/15`, in microseconds.
  abbrev pub due : ℕ → Receiver → Bool
  due now r = leb 1000000 (15 * (now - r.last_jpeg))

  -- One round of `receive` on a frame of the queue.
  unfoldable pub on_item : ℕ → Frame → Receiver → Receiver × Answer D.Image
  on_item now f r =
      let r' = choose_decoder r f in
      note_answer now (feed r' f)
        (convert (due now r) (D.decode (map (λ g. g.payload) r'.fed) f.payload))
