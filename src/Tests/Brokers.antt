-- ===== src/Tests/Brokers.antt =====
-- Runs of the broker of src/t6_kvm/daemon.py.
use nanopc_t6_kvm.Base.{
  ℕ, ◌+◌, ◌-◌, ◌*◌, ◌≤◌, ◌≡◌, ◌≢◌, refl, arith, true, false, List, [], ◌∷◌, none, some, length, err,
}
use nanopc_t6_kvm.Gate.{accept}
use nanopc_t6_kvm.Gate.Decodable.{IsDecodable}
use nanopc_t6_kvm.Buffer.{FrameBuffer, queue_full, put, fresh}
use nanopc_t6_kvm.Buffer.Run.{take_frame}
use nanopc_t6_kvm.Broker.{Broker, create, request_key, request_keys}
use nanopc_t6_kvm.Broker.Clients.{connect}
use nanopc_t6_kvm.Broker.Publish.{status, put_each, publish, window, buffer_error}
use nanopc_t6_kvm.Broker.Supervise.{started, frame, on_event}
use nanopc_t6_kvm.Broker.Streams.{Sent}
use nanopc_t6_kvm.Broker.Reachable.{Reach, here, next, join, event, deliver, find, replace, sent_to}
use nanopc_t6_kvm.Broker.Delivered.{nothing_sent, streams-IsDecodable}
use nanopc_t6_kvm.Broker.KeyRate.{requests, keys_sent, keys_sent-requests}
use nanopc_t6_kvm.Broker.Window.{IsWindow}
use nanopc_t6_kvm.Broker.Recovery.{on_frames, on_frames-restarts}
use nanopc_t6_kvm.Gate
use nanopc_t6_kvm.Tests.Samples.{toy_json, key_frame, slice_frame}

abbrev idle : Broker
idle = create 3 8000000

-- A worker runs, one client is connected, and a key picture waits for it.
unfoldable playing : Broker
unfolding on_event connect
playing =
    (on_event toy_json 6000000 (connect 5000000 1 (on_event toy_json 4000000 idle started).0).0
      (frame (key_frame 1))).0

unfoldable waiting : FrameBuffer
waiting = record (fresh 3) {
  queue = key_frame 1 ∷ [];
  gate = (accept (fresh 3).gate (key_frame 1)).0;
}

playing-found : find 1 playing.buffers ≡ some waiting
unfolding playing waiting on_event connect publish put_each put accept status request_key
    request_keys window
playing-found = refl

no_client : find 1 (on_event toy_json 4000000 idle started).0.buffers ≡ none
unfolding on_event
no_client = refl

abbrev playing_sent : Sent
playing_sent = sent_to 1 [] nothing_sent

playing-Reach : Reach toy_json idle nothing_sent playing playing_sent
unfolding playing
playing-Reach =
    next (next (next here (event 4000000 started)) (join 5000000 1 no_client))
      (event 6000000 (frame (key_frame 1)))

-- The same, with the picture sent.
unfoldable served : Broker
served = record playing { buffers = replace 1 (take_frame ([], waiting)).1 playing.buffers }

abbrev served_sent : Sent
served_sent = sent_to 1 (take_frame (playing_sent 1, waiting)).0 playing_sent

served-Reach : Reach toy_json idle nothing_sent served served_sent
unfolding served
served-Reach = next playing-Reach (deliver 1 waiting playing-found)

unfoldable emptied : FrameBuffer
emptied = (take_frame ([], waiting)).1

served-found : find 1 served.buffers ≡ some emptied
unfolding served emptied playing waiting on_event connect publish put_each put accept status
    request_key request_keys window
served-found = refl

served_frames : served_sent 1 ≡ key_frame 1 ∷ []
unfolding waiting
served_frames = refl

streams-IsDecodable_example :
    (length served.clients ≤ 4)
    × IsDecodable none (served_sent 1)
    × (length emptied.queue ≤ served.queue_frames)
    × ((on_event toy_json 7000000 served (frame (slice_frame 2))).1 ≢ err (buffer_error queue_full))
streams-IsDecodable_example =
    streams-IsDecodable toy_json 3 8000000 7000000 1 (frame (slice_frame 2)) queue_full
      (omega arith) (omega arith) served-Reach served-found

-- Of four requests within forty milliseconds two are written.
abbrev request_times : List ℕ
request_times = 40000 ∷ 50000 ∷ 71000 ∷ 80000 ∷ []

abbrev running : Broker
running = record idle { proc = some (record { running = true; pipe_open = true; keys = 0 }) }

running-keys : keys_sent (requests request_times running) ≡ 2
unfolding requests request_key
running-keys = refl

keys_sent-requests_example :
    keys_sent (requests request_times running) * 30000
    ≤ keys_sent running * 30000 + 30000 + (80000 - 40000)
keys_sent-requests_example =
    keys_sent-requests 40000 80000 request_times running
      (
        (omega arith, omega arith),
        (
          (omega arith, omega arith),
          ((omega arith, omega arith), ((omega arith, omega arith), tt)),
        ),
      )
      (omega arith)

-- The oldest of two times is dropped with the picture at nine seconds.
abbrev timed : Broker
timed = record idle { times = 1000000 ∷ 6000000 ∷ [] }

timed-window : window 9000000 timed.times ≡ 6000000 ∷ 9000000 ∷ []
unfolding window
timed-window = refl

timed-accept : (accept timed.gate (key_frame 1)).1 ≡ true
unfolding accept
timed-accept = refl

timed-IsWindow : IsWindow 8000000 timed.times
timed-IsWindow = record {
  bounded = omega arith;
  ordered = ((omega arith, tt), (tt, tt));
  past = (omega arith, (omega arith, tt));
}

-- Pictures that are no key, up to eight seconds behind the first, and one later.
on_frames-restarts_example :
    let waited =
      on_frames toy_json ((1000000, slice_frame 1) ∷ (9000000, slice_frame 2) ∷ []) running in
    let b' = (on_event toy_json 9000001 waited (frame (slice_frame 3))).0 in
    (waited.state.restarts ≡ 0)
    × (b'.state.restarts ≡ 1)
    × (b'.proc ≡ none)
    × (b'.gate ≡ Gate.reset)
    × (b'.state.online ≡ false)
on_frames-restarts_example =
    on_frames-restarts toy_json 1000000 9000001 (slice_frame 1) (slice_frame 3)
      ((9000000, slice_frame 2) ∷ []) running refl refl (omega arith)
      (((refl, refl), omega arith), (((refl, refl), omega arith), tt)) (refl, refl) (omega arith)
