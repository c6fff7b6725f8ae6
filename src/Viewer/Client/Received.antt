-- ===== src/Viewer/Client/Received.antt =====
-- The pictures that the KVM daemon reads with `T6StreamerClient` (src/t6_kvm/kvmd_adapter.py).
use nanopc_t6_kvm.Base.{
  ℕ, ◌≡◌, inl, inr, refl, arith, Bool, true, false, List, [], ◌∷◌, Option, none, some, ◌==◌, ==_iff,
  Bool-cases,
}
use nanopc_t6_kvm.Protocol.{Frame, au}
use nanopc_t6_kvm.Gate
use nanopc_t6_kvm.Gate.{RecoveryGate, accept}
use nanopc_t6_kvm.Gate.Decodable.{
  IsDecodable, CanShow, Tracks, Tracks-reset, Tracks-lost, Accepted, accept-Accepted, after-au,
}
use nanopc_t6_kvm.Viewer.Client.{
  Client, request_key, begin_reading, returned, temp_error, waits, Receipt, on_frame, read_on,
  receive, received,
}

request_key-gate : (now : ℕ) (c : Client) → (request_key now c).gate ≡ c.gate
request_key-gate now c = ground arith

-- A frame that is returned can be shown, and the gate has seen it.
Good : Option Frame → Receipt → Type 0
Good last (returned f, c, rest) = (f.kind ≡ au) × CanShow last f × Tracks c.gate (some f)
Good last (temp_error m, c, rest) = Unit
Good last (waits, c, rest) = Unit

on_frame-Good :
    (last : Option Frame) (f : Frame) (c : Client) (rest : List (ℕ × Frame))
    (r : RecoveryGate × Bool) (later : Receipt)
    → Accepted last f r
    → (r.1 ≡ false → Good last later)
    → Good last (on_frame f c rest r later)
unfolding Good
on_frame-Good last f c rest (g, true) later a h =
    let q : (f.kind == au) ≡ true = (==_iff f.kind au).1 a.0 in rw q a
on_frame-Good last f c rest (g, false) later a h = elim (Bool-cases (f.kind == au)) [
  | inl picture ↦ rw picture (h refl)
  | inr status ↦ rw status tt
]

read_on-Good :
    (last : Option Frame) (frames : List (ℕ × Frame)) (c : Client)
    → Tracks c.gate last
    → Good last (read_on frames c)
unfolding read_on Good
read_on-Good last [] c t = tt
read_on-Good last ((now, f) ∷ rest) c t =
    let r = accept c.gate f in
    let a = accept-Accepted c.gate last f t in
    let c' = request_key now (record c { gate = r.0 }) in
    on_frame-Good last f c rest r (read_on rest c') a (λ lost.
      read_on-Good last rest c'
        (rw (request_key-gate now (record c { gate = r.0 })) (tracks r a lost)))
  where
    tracks : (r : RecoveryGate × Bool) → Accepted last f r → r.1 ≡ false → Tracks r.0 last
    tracks (g, true) a lost = cc
    tracks (g, false) a lost = Tracks-lost g last a

receive-Good :
    (last : Option Frame) (now : ℕ) (key_required : Bool) (frames : List (ℕ × Frame)) (c : Client)
    → Tracks c.gate last
    → Good last (receive now key_required frames c)
unfolding receive
receive-Good last now true frames c t =
    let c' = record c { gate = Gate.reset } in
    read_on-Good last frames (request_key now c') (rw (request_key-gate now c') (Tracks-reset last))
receive-Good last now false frames c t = read_on-Good last frames c t

received-Tracks :
    (last : Option Frame) (calls : List (ℕ × Bool)) (frames : List (ℕ × Frame)) (c : Client)
    → Tracks c.gate last
    → IsDecodable last (received calls frames c)
unfolding received Good
received-Tracks last [] frames c t = tt
received-Tracks last ((now, key_required) ∷ calls) frames c t =
    go (receive now key_required frames c) (receive-Good last now key_required frames c t)
      (λ f c' rest tracks. received-Tracks (some f) calls rest c' tracks)
  where
    go :
        (r : Receipt)
        → Good last r
        → ((f : Frame) (c' : Client) (rest : List (ℕ × Frame))
            → Tracks c'.gate (some f)
            → IsDecodable (some f) (received calls rest c'))
        → IsDecodable last (elim r.0 [
          | returned f ↦ f ∷ received calls r.2 r.1
          | temp_error message ↦ []
          | waits ↦ []
        ])
    go (returned f, c', rest) (k, show, tracks) ih = (show, rw (after-au f k) (ih f c' rest tracks))
    go (temp_error m, c', rest) g ih = tt
    go (waits, c', rest) g ih = tt

-- Whatever frames arrive, at whatever times, and whether or not each call of `receive` requires a key,
-- the frames that the calls return are a stream that a decoder can show.
pub received-IsDecodable :
    (now : ℕ) (calls : List (ℕ × Bool)) (frames : List (ℕ × Frame))
    → IsDecodable none (received calls frames (begin_reading now))
received-IsDecodable now calls frames =
    received-Tracks none calls frames (begin_reading now)
      (rw (request_key-gate now _) (Tracks-reset none))
