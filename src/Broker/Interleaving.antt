-- ===== src/Broker/Interleaving.antt =====
-- `status` and `publish` of src/t6_kvm/daemon.py keep the streams of every client.
use nanopc_t6_kvm.Base.{
  ℕ, ◌+◌, inl, inr, refl, Bool, true, false, List, [], Option, none, some, ltb, ◌==◌, if◌then◌else◌,
  Bool-cases, ok,
}
use nanopc_t6_kvm.Value
use nanopc_t6_kvm.Value.{Value, Json, Fields, obj, boolean, truthy}
use nanopc_t6_kvm.Protocol.{Frame, au}
use nanopc_t6_kvm.Gate
use nanopc_t6_kvm.Gate.{RecoveryGate, accept}
use nanopc_t6_kvm.Broker.{Broker, codes, request_key}
use nanopc_t6_kvm.Broker.Publish.{
  status, offline, noted, get_or, publish_info, publish_status, held_back, publish_au, publish,
}
use nanopc_t6_kvm.Broker.Streams.{
  Sent, IsServing, Serves, hand_out-Serves, SameClients, request_key-SameClients,
  SameClients-IsServing,
}

-- A change of any other part of the broker.
same : (sent : Sent) (b b' : Broker) → SameClients b b' → IsServing sent b → Serves sent (b', ok tt)
same sent b b' e v = record {
  serving = SameClients-IsServing sent b b' e v;
  no_buffer_error = λ e p. cc;
}

pub status-Serves :
    (json : Json) (now : ℕ) (sent : Sent) (b : Broker) (message : List ℕ)
    → IsServing sent b
    → Serves sent (status json now b message)
unfolding status
status-Serves json now sent b message v =
    hand_out-Serves now sent
      (record b { gate = Gate.reset; times = []; state = offline b.state message }) _
      (SameClients-IsServing sent b _ (refl, refl, refl) v)

publish_info-Serves :
    (json : Json) (now : ℕ) (sent : Sent) (b : Broker) (info : Fields) (path : Option Value)
    → IsServing sent b
    → Serves sent (publish_info json now b info path)
publish_info-Serves json now sent b info (some path) v = same sent b _ (refl, refl, refl) v
publish_info-Serves json now sent b info none v =
    let b' = record b { state = noted b.state info } in
    let v' : IsServing sent b' = SameClients-IsServing sent b b' (refl, refl, refl) v in
    elim (Bool-cases (truthy (get_or (boolean false) (Value.get (codes "online") info)))) [
      | inl on ↦ rw on (same sent b b' (refl, refl, refl) v)
      | inr off ↦ rw off (status-Serves json now sent b' _ v')
    ]

publish_status-Serves :
    (json : Json) (now : ℕ) (sent : Sent) (b : Broker) (value : Option Value)
    → IsServing sent b
    → Serves sent (publish_status json now b value)
publish_status-Serves json now sent b (some (obj info)) v =
    publish_info-Serves json now sent b info (Value.get (codes "input_path") info) v
publish_status-Serves json now sent b _ v = record { serving = v; no_buffer_error = λ e p. cc }

held_back-Serves :
    (now : ℕ) (sent : Sent) (b : Broker) → IsServing sent b → Serves sent (held_back now b)
held_back-Serves now sent b v =
    let b1 = request_key now b in
    let v1 : IsServing sent b1 =
      SameClients-IsServing sent b b1 (request_key-SameClients now b) v in
    let b2 = record b1 {
      wait_key_since = if b1.wait_key_since == 0 then now else b1.wait_key_since;
    } in
    let v2 : IsServing sent b2 = SameClients-IsServing sent b1 b2 (refl, refl, refl) v1 in
    elim (Bool-cases (ltb (b2.wait_key_since + b2.stall_micros) now)) [
      | inl late ↦ rw late (record { serving = v2; no_buffer_error = λ e p. cc })
      | inr early ↦ rw early (record { serving = v2; no_buffer_error = λ e p. cc })
    ]

publish_au-Serves :
    (now : ℕ) (sent : Sent) (b : Broker) (f : Frame) (r : RecoveryGate × Bool)
    → IsServing sent b
    → Serves sent (publish_au now b f r)
publish_au-Serves now sent b f (g, true) v =
    hand_out-Serves now sent _ f (SameClients-IsServing sent b _ (refl, refl, refl) v)
publish_au-Serves now sent b f (g, false) v =
    held_back-Serves now sent (record b { gate = g })
      (SameClients-IsServing sent b _ (refl, refl, refl) v)

pub publish-Serves :
    (json : Json) (now : ℕ) (sent : Sent) (b : Broker) (f : Frame)
    → IsServing sent b
    → Serves sent (publish json now b f)
unfolding publish
publish-Serves json now sent b f v = elim (Bool-cases (f.kind == au)) [
  | inl a ↦ rw a (publish_au-Serves now sent b f (accept b.gate f) v)
  | inr s ↦ rw s (publish_status-Serves json now sent b (json.loads f.payload) v)
]
