-- ===== src/Broker/KeyRate.antt =====
-- How often `request_key` of src/t6_kvm/daemon.py writes to the worker.
use nanopc_t6_kvm.Base.{
  ℕ, ◌+◌, ◌-◌, ◌*◌, ◌≤◌, ◌≡◌, ◌⊎◌, inl, inr, refl, arith, ◌&&◌, List, [], ◌∷◌, Option, none, some,
  leb, Bool-cases, All,
}
use nanopc_t6_kvm.Broker.{Broker, Worker, write_key, request_by, request_key}

-- The calls of `request_key` that anyone makes, at the given times.
unfoldable pub requests : List ℕ → Broker → Broker
requests [] b = b
requests (now ∷ later) b = requests later (request_key now b)

abbrev pub keys_of : Option Worker → ℕ
keys_of none = 0
keys_of (some w) = w.keys

-- The bytes "K" that the worker was sent.
abbrev pub keys_sent : Broker → ℕ
keys_sent b = keys_of b.proc

-- One request writes nothing, or one byte thirty milliseconds behind the last.
abbrev Paced : ℕ → Broker → Broker → Type 0
Paced now b b' =
    (b' ≡ b) ⊎ ((b'.key_time ≡ now) × (b.key_time + 30000 ≤ now) × (keys_sent b' ≡ keys_sent b + 1))

write_key-Paced :
    (now : ℕ) (b : Broker) (w : Worker) → b.proc ≡ some w → Paced now b (write_key now b w)
write_key-Paced now b w e =
    elim (Bool-cases (w.running && leb (b.key_time + 30000) now && w.pipe_open)) [
      | inl on ↦ inr (rw on (refl, ground arith, rw e refl))
      | inr off ↦ inl (rw off refl)
    ]

request_key-Paced : (now : ℕ) (b : Broker) → Paced now b (request_key now b)
unfolding request_key
request_key-Paced now b = go b.proc refl
  where
    go : (proc : Option Worker) → b.proc ≡ proc → Paced now b (request_by proc now b)
    go none e = inl refl
    go (some w) e = write_key-Paced now b w e

-- Each byte moves the time of the last one by thirty milliseconds or more.
requests-key_time :
    (times : List ℕ) (b : Broker)
    → keys_sent (requests times b) * 30000 + b.key_time
      ≤ keys_sent b * 30000 + (requests times b).key_time
unfolding requests
requests-key_time [] b = omega arith
requests-key_time (now ∷ later) b = elim (request_key-Paced now b) [
  | inl same ↦ rw (requests, same) (requests-key_time later b)
  | inr (at, gap, more) ↦ omega (arith, requests-key_time later (request_key now b))
]

requests-latest :
    (latest : ℕ) (times : List ℕ) (b : Broker)
    → All (λ t. t ≤ latest) times
    → b.key_time ≤ latest
    → (requests times b).key_time ≤ latest
unfolding requests
requests-latest latest [] b p h = h
requests-latest latest (now ∷ later) b (p, ps) h = elim (request_key-Paced now b) [
  | inl same ↦ rw (requests, same) (requests-latest latest later b ps h)
  | inr (at, gap, more) ↦ requests-latest latest later (request_key now b) ps (rw at p)
]

-- Over any requests between two moments, the bytes that the worker is sent are at most one and one
-- for every thirty milliseconds between the moments.
pub keys_sent-requests :
    (first latest : ℕ) (times : List ℕ) (b : Broker)
    → All (λ t. (first ≤ t) × (t ≤ latest)) times
    → first ≤ latest
    → keys_sent (requests times b) * 30000 ≤ keys_sent b * 30000 + 30000 + (latest - first)
unfolding requests
keys_sent-requests first latest [] b p h = omega arith
keys_sent-requests first latest (now ∷ later) b (p, ps) h = elim (request_key-Paced now b) [
  | inl same ↦ rw (requests, same) (keys_sent-requests first latest later b ps h)
  | inr (at, gap, more) ↦
      let r = request_key now b in
      let upper = requests-latest latest later r (below later ps) (rw at (p.1)) in
      omega (arith, requests-key_time later r, upper, at, more, p)
]
  where
    below : (ts : List ℕ) → All (λ t. (first ≤ t) × (t ≤ latest)) ts → All (λ t. t ≤ latest) ts
    below [] q = tt
    below (t ∷ ts) (q, qs) = (q.1, below ts qs)
