-- ===== src/Tests/Tools.antt =====
-- Endpoints, dumps and tiles at concrete inputs.
use nanopc_t6_kvm.Base.{
  ℕ, ◌≤◌, ◌≡◌, ◌⊎◌, refl, arith, false, List, [], ◌∷◌, map, none, some, length, All,
}
use nanopc_t6_kvm.Protocol.{Frame}
use nanopc_t6_kvm.Gate
use nanopc_t6_kvm.Gate.{accept}
use nanopc_t6_kvm.Gate.Decodable.{IsDecodable, deliver}
use nanopc_t6_kvm.Buffer
use nanopc_t6_kvm.Endpoint.{World, fresh_socket, Calls, bind, close}
use nanopc_t6_kvm.Endpoint.Foreign.{Event, bind_call, others_set, run, foreign_kept}
use nanopc_t6_kvm.Dump.{begin, on_frames, summary}
use nanopc_t6_kvm.Dump.Saved.{of_epoch, file, IsMeasured, on_frames-IsDecodable}
use nanopc_t6_kvm.Viewer.{kvmd}
use nanopc_t6_kvm.Jpeg.{Decoder, got, raised, tiles, on_item, collect}
use nanopc_t6_kvm.Jpeg.Session.{Call, collect_call, receive_call, begin_session, fed-IsDecodable}
use nanopc_t6_kvm.Jpeg.Session
use nanopc_t6_kvm.Jpeg.Cover.{shows, IsSmall, shows-tiles}
use nanopc_t6_kvm.Tests.Samples.{toy_json, key_frame, slice_frame, status_frame}

abbrev empty_directory : World
empty_directory = record { euid = 990; parent_uid = 990; parent_mode = 0o750; entry = none }

abbrev fine : Calls
fine = record {
  intruder = none;
  inode = 41;
  before_lstat = none;
  before_close = none;
  before_unlink = none;
  bind_fails = false;
  chmod_fails = false;
  listen_fails = false;
}

-- The endpoint is replaced by another process before it is closed.
abbrev replaced : List Event
replaced = bind_call fine ∷ others_set none ∷ others_set (some 57) ∷ []

replaced-entry : (run replaced (empty_directory, fresh_socket)).0.entry ≡ some 57
unfolding run bind
replaced-entry = refl

foreign_kept_example :
    let o = run replaced (empty_directory, fresh_socket) in
    ((close (some (some 58)) o).0.entry ≡ some 58) × ((bind fine o).0.0.entry ≡ some 57)
foreign_kept_example =
    foreign_kept replaced empty_directory fine (some (some 58)) 57 replaced-entry refl

abbrev stream : List Frame
stream = slice_frame 0 ∷ key_frame 1 ∷ status_frame ∷ slice_frame 2 ∷ key_frame 3 ∷ []

stream-saved : file 7 (on_frames toy_json begin stream).streams ≡ key_frame 1 ∷ key_frame 3 ∷ []
unfolding on_frames accept
stream-saved = refl

stream-summary : summary (on_frames toy_json begin stream) ≡ some ((7, none) ∷ [])
unfolding on_frames summary accept
stream-summary = refl

on_frames-IsDecodable_example :
    let d = on_frames toy_json begin stream in
    (file 7 d.streams ≡ of_epoch 7 (deliver Gate.reset stream))
    × IsDecodable none (file 7 d.streams)
    × All IsMeasured d.streams
    × (map (λ r. r.frame) d.rows ≡ stream)
on_frames-IsDecodable_example = on_frames-IsDecodable toy_json 7 stream

-- A decoder that shows each packet as a picture of its length.
abbrev toy_decoder : Decoder
toy_decoder = record {
  Image = ℕ;
  decode = λ before packet. some (length packet ∷ []);
  width = λ i. i;
  height = λ i. i;
}

abbrev rounds : List Call
rounds =
    collect_call (got (kvmd (slice_frame 0)))
    ∷ collect_call (got (kvmd (key_frame 1)))
    ∷ collect_call (got (kvmd (slice_frame 2)))
    ∷ receive_call 1000000
    ∷ receive_call 1020000
    ∷ collect_call raised
    ∷ []

rounds-fed :
    (Session.run toy_decoder rounds begin_session).receiver.fed
    ≡ key_frame 1 ∷ record (slice_frame 2) { flags = 1 } ∷ []
unfolding Session.run on_item collect Buffer.put accept
rounds-fed = refl

fed-IsDecodable_example :
    let s = Session.run toy_decoder rounds begin_session in
    IsDecodable none s.receiver.fed
    × (length s.pending.buffer.queue ≤ 8)
    × ((s.pending.ended ≡ false) ⊎ (s.pending.buffer.queue ≡ []))
fed-IsDecodable_example = fed-IsDecodable toy_decoder rounds

four_tiles : length (tiles 3840 2160) ≡ 4
unfolding tiles
four_tiles = refl

shows-tiles_example : (shows 3839 2159 (tiles 3840 2160) ≡ 1) × All IsSmall (tiles 3840 2160)
shows-tiles_example = shows-tiles 3840 2160 3839 2159 (omega arith) (omega arith)
