-- ===== src/Broker/Reachable.antt =====
-- The steps of the tasks of src/t6_kvm/daemon.py, in any order, and the streams of its clients.
use nanopc_t6_kvm.Base.{
  ℕ, ◌≡◌, refl, List, [], ◌∷◌, Option, none, some, ◌==◌, if◌then◌else◌, ok, err,
}
use nanopc_t6_kvm.Value.{Json}
use nanopc_t6_kvm.Protocol.{Frame}
use nanopc_t6_kvm.Buffer.{FrameBuffer}
use nanopc_t6_kvm.Buffer.Run.{take_frame}
use nanopc_t6_kvm.Broker.{Broker}
use nanopc_t6_kvm.Broker.Publish.{Run, buffer_error, recovery_timeout, not_json, publish}
use nanopc_t6_kvm.Broker.Clients.{connect, disconnect, command}
use nanopc_t6_kvm.Broker.Supervise.{
  Event, started, pipe_closed, exited, frame, failed, begin_life, buried, end_life, after_publish,
  on_event,
}
use nanopc_t6_kvm.Broker.Streams.{Sent, IsServing, Serves, SameClients-IsServing}
use nanopc_t6_kvm.Broker.Interleaving.{status-Serves, publish-Serves}

buried-Serves : (sent : Sent) (r : Run) → Serves sent r → Serves sent (buried r)
buried-Serves sent (b, r) v = record {
  serving = SameClients-IsServing sent b _ (refl, refl, refl) v.serving;
  no_buffer_error = v.no_buffer_error;
}

pub begin_life-Serves :
    (json : Json) (now : ℕ) (sent : Sent) (b : Broker)
    → IsServing sent b
    → Serves sent (begin_life json now b)
unfolding begin_life
begin_life-Serves json now sent b v =
    status-Serves json now sent (record b { key_time = 0; wait_key_since = 0 }) _
      (SameClients-IsServing sent b _ (refl, refl, refl) v)

end_life-Serves :
    (json : Json) (now : ℕ) (sent : Sent) (b : Broker) (message : List ℕ)
    → IsServing sent b
    → Serves sent (end_life json now b message)
unfolding end_life
end_life-Serves json now sent b message v =
    buried-Serves sent _ (status-Serves json now sent b message v)

after_publish-Serves :
    (json : Json) (now : ℕ) (sent : Sent) (r : Run)
    → Serves sent r
    → Serves sent (after_publish json now r)
after_publish-Serves json now sent (b, ok u) v = v
after_publish-Serves json now sent (b, err recovery_timeout) v =
    end_life-Serves json now sent b _ v.serving
after_publish-Serves json now sent (b, err (buffer_error e)) v = absurd (v.no_buffer_error e refl)
after_publish-Serves json now sent (b, err not_json) v = record {
  serving = SameClients-IsServing sent b _ (refl, refl, refl) v.serving;
  no_buffer_error = λ e p. cc;
}

pub on_event-Serves :
    (json : Json) (now : ℕ) (sent : Sent) (b : Broker) (e : Event)
    → IsServing sent b
    → Serves sent (on_event json now b e)
unfolding on_event
on_event-Serves json now sent b started v = record {
  serving = SameClients-IsServing sent b _ (refl, refl, refl) v;
  no_buffer_error = λ e p. cc;
}
on_event-Serves json now sent b pipe_closed v = record {
  serving = SameClients-IsServing sent b _ (refl, refl, refl) v;
  no_buffer_error = λ e p. cc;
}
on_event-Serves json now sent b exited v = record {
  serving = SameClients-IsServing sent b _ (refl, refl, refl) v;
  no_buffer_error = λ e p. cc;
}
on_event-Serves json now sent b (frame f) v =
    after_publish-Serves json now sent (publish json now b f) (publish-Serves json now sent b f v)
on_event-Serves json now sent b (failed message) v = end_life-Serves json now sent b message v

abbrev pub find : ℕ → List (ℕ × FrameBuffer) → Option FrameBuffer
find c [] = none
find c ((x, buf) ∷ rest) = if x == c then some buf else find c rest

abbrev pub replace : ℕ → FrameBuffer → List (ℕ × FrameBuffer) → List (ℕ × FrameBuffer)
replace c new [] = []
replace c new ((x, buf) ∷ rest) = (x, if x == c then new else buf) ∷ replace c new rest

abbrev pub sent_to : ℕ → List Frame → Sent → Sent
sent_to c log sent x = if x == c then log else sent x

-- The worker's loop and the clients' tasks. A client that takes a frame writes it to its socket.
pub data Step (json : Json) (b : Broker) (sent : Sent) : Broker → Sent → Type 0 where
  life : (now : ℕ) → Step json b sent (begin_life json now b).0 sent
  event : (now : ℕ) (e : Event) → Step json b sent (on_event json now b e).0 sent
  join :
      (now c : ℕ)
      → find c b.buffers ≡ none
      → Step json b sent (connect now c b).0 (sent_to c [] sent)
  leave : (c : ℕ) → Step json b sent (disconnect c b) sent
  control : (now : ℕ) (bytes : List ℕ) → Step json b sent (command now bytes b).0 sent
  deliver :
      (c : ℕ) (buf : FrameBuffer)
      → find c b.buffers ≡ some buf
      → Step json b sent
          (record b { buffers = replace c (take_frame (sent c, buf)).1 b.buffers })
          (sent_to c (take_frame (sent c, buf)).0 sent)

pub data Reach (json : Json) (b0 : Broker) (sent0 : Sent) : Broker → Sent → Type 0 where
  here : Reach json b0 sent0 b0 sent0
  next :
      {b b' : Broker} {sent sent' : Sent}
      → Reach json b0 sent0 b sent
      → Step json b sent b' sent'
      → Reach json b0 sent0 b' sent'
