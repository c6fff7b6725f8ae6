-- ===== src/Tests/Viewers.antt =====
-- A viewer's queue of src/t6_kvm/kvmd_adapter.py.
use nanopc_t6_kvm.Base.{
  ℕ, ◌≤◌, ◌≡◌, ◌≢◌, refl, arith, Bool, true, false, List, [], ◌∷◌, none, length, err,
}
use nanopc_t6_kvm.Value.{end}
use nanopc_t6_kvm.Protocol.{Frame, is_discontinuity}
use nanopc_t6_kvm.Protocol.Nal.{nal_types}
use nanopc_t6_kvm.Protocol.Validate.{validate}
use nanopc_t6_kvm.Gate.{accept}
use nanopc_t6_kvm.Buffer
use nanopc_t6_kvm.Gate.Decodable.{IsDecodable}
use nanopc_t6_kvm.Buffer.{queue_full}
use nanopc_t6_kvm.Viewer.{waiting, kvmd, from_kvmd, picture, screen, buffer_error, put}
use nanopc_t6_kvm.Viewer.Client.{begin_reading, read_on, receive, received}
use nanopc_t6_kvm.Viewer.Client.Received.{received-IsDecodable}
use nanopc_t6_kvm.Viewer.Pictures.{from_kvmd-kvmd}
use nanopc_t6_kvm.Viewer.Shown.{
  Call, put_call, get_call, run, open_buffer, Answers, shown-IsDecodable,
}
use nanopc_t6_kvm.Tests.Samples.{toy_json, key_frame, slice_frame}

from_kvmd-kvmd_example :
    (kvmd (from_kvmd (kvmd (slice_frame 2))) ≡ kvmd (slice_frame 2))
    × (is_discontinuity (from_kvmd (kvmd (slice_frame 2))) ≡ false)
    × (from_kvmd (kvmd (key_frame 1)) ≡ key_frame 1)
from_kvmd-kvmd_example =
    from_kvmd-kvmd (kvmd (slice_frame 2)) (key_frame 1) refl refl (omega arith) refl refl

abbrev calls : List Call
calls =
    put_call (screen end)
    ∷ get_call
    ∷ put_call (picture (kvmd (slice_frame 0)))
    ∷ put_call (picture (kvmd (key_frame 1)))
    ∷ put_call (picture (kvmd (slice_frame 2)))
    ∷ get_call
    ∷ []

shown-IsDecodable_example :
    let (log, b) = run toy_json calls ([], open_buffer 3) in
    IsDecodable none log
    × (length b.inner.queue ≤ 3)
    × ((put toy_json b (screen end)).1 ≢ err (buffer_error queue_full))
    × Answers (log, b)
shown-IsDecodable_example = shown-IsDecodable toy_json 3 calls (screen end) queue_full refl

-- The picture behind the waiting screen is held back until the key picture.
calls-run : (run toy_json calls ([], open_buffer 3)).0 ≡ waiting toy_json ∷ key_frame 1 ∷ []
unfolding run put Buffer.put accept validate nal_types
calls-run = refl

-- The first call meets a picture that is held back; the third requires a key and waits.
abbrev reads : List (ℕ × Bool)
reads = (1000000, true) ∷ (1100000, false) ∷ (1200000, true) ∷ []

abbrev arrivals : List (ℕ × Frame)
arrivals =
    (1010000, slice_frame 0)
    ∷ (1050000, key_frame 1)
    ∷ (1110000, slice_frame 2)
    ∷ (1210000, slice_frame 3)
    ∷ []

reads-received : received reads arrivals (begin_reading 900000) ≡ key_frame 1 ∷ slice_frame 2 ∷ []
unfolding received receive read_on accept
reads-received = refl

received-IsDecodable_example : IsDecodable none (received reads arrivals (begin_reading 900000))
received-IsDecodable_example = received-IsDecodable 900000 reads arrivals
