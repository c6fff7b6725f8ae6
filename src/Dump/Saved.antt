-- ===== src/Dump/Saved.antt =====
-- What tools/dump_frames.py has in its files.
use nanopc_t6_kvm.Base.{
  ℕ, ◌≡◌, inl, inr, refl, sym, ap, ◌∙◌, arith, Bool, true, false, List, [], ◌∷◌, ◌++◌, map, Option,
  none, some, ◌==◌, if◌then◌else◌, ==_iff, Bool-cases, length, All, length-append,
}
use nanopc_t6_kvm.Value.{Json}
use nanopc_t6_kvm.Protocol.{Frame, au}
use nanopc_t6_kvm.Gate
use nanopc_t6_kvm.Gate.{RecoveryGate, accept}
use nanopc_t6_kvm.Gate.Decodable.{CanShow, IsDecodable, after-au, deliver, deliver-IsDecodable}
use nanopc_t6_kvm.Dump.{Stream, Dump, begin, write, save, on_picture, on_frame, on_frames}
use mathlib.Core.List.{append_assoc, append-nil, map-append}

-- The frames of one epoch.
pub of_epoch : ℕ → List Frame → List Frame
of_epoch e [] = []
of_epoch e (f ∷ fs) = if f.epoch == e then f ∷ of_epoch e fs else of_epoch e fs

-- The file of an epoch; none is made before its first picture.
abbrev pub file : ℕ → List Stream → List Frame
file e [] = []
file e (s ∷ ss) = if s.epoch == e then s.written else file e ss

file-save :
    (e : ℕ) (f : Frame) (ss : List Stream)
    → file e (save f ss) ≡ (if f.epoch == e then file e ss ++ (f ∷ []) else file e ss)
file-save e f [] = refl
file-save e f (s ∷ ss) = ground (arith, file-save e f ss)

-- A picture that follows the last one of another epoch is a key, so an epoch's own pictures follow one
-- another: `kept` is the last of them where the last of all is of the epoch.
abbrev Keeps : ℕ → Option Frame → Option Frame → Type 0
Keeps e none kept = Unit
Keeps e (some p) kept = p.epoch ≡ e → kept ≡ some p

CanShow-Keeps :
    (e : ℕ) (last kept : Option Frame) (f : Frame)
    → Keeps e last kept
    → f.epoch ≡ e
    → CanShow last f
    → CanShow kept f
CanShow-Keeps e last kept f k h (inl status) = inl status
CanShow-Keeps e last kept f k h (inr (inl key)) = inr (inl key)
CanShow-Keeps e none kept f k h (inr (inr follows)) = absurd follows
CanShow-Keeps e (some p) kept f k h (inr (inr follows)) =
    rw (k (sym follows.epoch ∙ h)) (inr (inr follows))

of_epoch-IsDecodable :
    (e : ℕ) (last kept : Option Frame) (fs : List Frame)
    → Keeps e last kept
    → All (λ f. f.kind ≡ au) fs
    → IsDecodable last fs
    → IsDecodable kept (of_epoch e fs)
unfolding of_epoch
of_epoch-IsDecodable e last kept [] k a d = tt
of_epoch-IsDecodable e last kept (f ∷ fs) k (au_f, a) (show, d) =
    let d' : IsDecodable (some f) fs = rw (after-au f au_f) at d in
    elim (Bool-cases (f.epoch == e)) [
      | inl here_it_is ↦
          rw (of_epoch, here_it_is)
            (
              CanShow-Keeps e last kept f k ((==_iff f.epoch e).0 here_it_is) show,
              rw (after-au f au_f) (of_epoch-IsDecodable e (some f) (some f) fs (λ _. refl) a d'),
            )
      | inr other ↦
          rw (of_epoch, other)
            (of_epoch-IsDecodable e (some f) kept fs (λ same. absurd (ground (arith, same, other)))
              a d')
    ]

accept-au : (g : RecoveryGate) (f : Frame) → (accept g f).1 ≡ true → f.kind ≡ au
unfolding accept
accept-au g f h = ground arith

deliver-All : (g : RecoveryGate) (fs : List Frame) → All (λ f. f.kind ≡ au) (deliver g fs)
unfolding deliver
deliver-All g [] = tt
deliver-All g (f ∷ fs) = go (accept g f) (accept-au g f) (λ g'. deliver-All g' fs)
  where
    go :
        (r : RecoveryGate × Bool)
        → (r.1 ≡ true → f.kind ≡ au)
        → ((g' : RecoveryGate) → All (λ f. f.kind ≡ au) (deliver g' fs))
        → All (λ f. f.kind ≡ au) (let rest = deliver r.0 fs in if r.1 then f ∷ rest else rest)
    go (g', true) h ih = (h refl, ih g')
    go (g', false) h ih = ih g'

accept-status :
    (g : RecoveryGate) (f : Frame) → (f.kind == au) ≡ false → accept g f ≡ (Gate.reset, false)
unfolding accept
accept-status g f h = rw h refl

-- What one round adds to the file of an epoch, and leaves of the gate.
on_frame-file :
    (json : Json) (e : ℕ) (d : Dump) (f : Frame)
    → let r = accept d.gate f in
      (file e (on_frame json d f).streams ≡ (
        if r.1
        then (if f.epoch == e then file e d.streams ++ (f ∷ []) else file e d.streams)
        else file e d.streams))
      × ((on_frame json d f).gate ≡ r.0)
unfolding on_frame
on_frame-file json e d f = elim (Bool-cases (f.kind == au)) [
  | inr status ↦ rw (accept-status d.gate f status, status) (refl, refl)
  | inl picture ↦ rw picture (go (accept d.gate f))
]
  where
    go :
        (r : RecoveryGate × Bool)
        → (file e (on_picture d f r).streams ≡ (
            if r.1
            then (if f.epoch == e then file e d.streams ++ (f ∷ []) else file e d.streams)
            else file e d.streams))
          × ((on_picture d f r).gate ≡ r.0)
    go (g, true) = (file-save e f d.streams, refl)
    go (g, false) = (refl, refl)

-- The files that frames add to, from a gate in any state.
file-on_frames :
    (json : Json) (e : ℕ) (d : Dump) (fs : List Frame)
    → file e (on_frames json d fs).streams ≡ file e d.streams ++ of_epoch e (deliver d.gate fs)
unfolding on_frames deliver of_epoch
file-on_frames json e d [] = sym (append-nil (file e d.streams))
file-on_frames json e d (f ∷ fs) =
    let (grown, gate) = on_frame-file json e d f in
    let rest = file-on_frames json e (on_frame json d f) fs in
    let r = accept d.gate f in
    rest ∙ rw (grown, gate) (go r.1 (file e d.streams) (deliver r.0 fs) (f.epoch == e) refl)
  where
    go :
        (pass : Bool) (old later : List Frame) (same : Bool)
        → (f.epoch == e) ≡ same
        → (if pass then (if same then old ++ (f ∷ []) else old) else old) ++ of_epoch e later
          ≡ old ++ of_epoch e (if pass then f ∷ later else later)
    go false old later same h = refl
    go true old later true h = rw (of_epoch, h) (append_assoc old (f ∷ []) (of_epoch e later))
    go true old later false h = rw (of_epoch, h) refl

-- The metrics of a file: its pictures are counted, and the first and the last are remembered.
pub record IsMeasured (s : Stream) : Type 0 where
  pub count : s.metric.count ≡ length s.written
  pub last :
      (f : Frame) × (fs : List Frame) × (s.written ≡ fs ++ (f ∷ []))
      × (s.metric.last_pts_us ≡ f.pts_us)

write-IsMeasured : (f : Frame) (s : Stream) → IsMeasured s → IsMeasured (write f s)
write-IsMeasured f s v = record {
  count = omega (arith, v.count, length-append s.written (f ∷ []));
  last = (f, s.written, refl, refl);
}

save-IsMeasured : (f : Frame) (ss : List Stream) → All IsMeasured ss → All IsMeasured (save f ss)
save-IsMeasured f [] v = (record { count = refl; last = (f, [], refl, refl) }, tt)
save-IsMeasured f (s ∷ ss) (v, vs) = elim (Bool-cases (s.epoch == f.epoch)) [
  | inl here_it_is ↦ rw here_it_is (write-IsMeasured f s v, vs)
  | inr other ↦ rw other (v, save-IsMeasured f ss vs)
]

on_frame-IsMeasured :
    (json : Json) (d : Dump) (f : Frame)
    → All IsMeasured d.streams
    → All IsMeasured (on_frame json d f).streams
      × (map (λ r. r.frame) (on_frame json d f).rows ≡ map (λ r. r.frame) d.rows ++ (f ∷ []))
unfolding on_frame
on_frame-IsMeasured json d f v = elim (Bool-cases (f.kind == au)) [
  | inr status ↦ rw status (v, map-append _ d.rows _)
  | inl picture ↦ rw picture (go (accept d.gate f))
]
  where
    go :
        (r : RecoveryGate × Bool)
        → All IsMeasured (on_picture d f r).streams
          × (map (λ r. r.frame) (on_picture d f r).rows ≡ map (λ r. r.frame) d.rows ++ (f ∷ []))
    go (g, true) = (save-IsMeasured f d.streams v, map-append _ d.rows _)
    go (g, false) = (v, map-append _ d.rows _)

on_frames-IsMeasured :
    (json : Json) (d : Dump) (fs : List Frame)
    → All IsMeasured d.streams
    → All IsMeasured (on_frames json d fs).streams
      × (map (λ r. r.frame) (on_frames json d fs).rows ≡ map (λ r. r.frame) d.rows ++ fs)
unfolding on_frames
on_frames-IsMeasured json d [] v = (v, sym (append-nil (map (λ r. r.frame) d.rows)))
on_frames-IsMeasured json d (f ∷ fs) v =
    let (w, rows) = on_frame-IsMeasured json d f v in
    let (end, all_rows) = on_frames-IsMeasured json (on_frame json d f) fs w in
    (end, all_rows ∙ ap (λ r. r ++ fs) rows ∙ append_assoc (map (λ r. r.frame) d.rows) (f ∷ []) fs)

-- Whatever frames arrive: the file of an epoch has exactly the epoch's pictures that a recovery gate
-- passes on, in their order, and a decoder can show it; the metrics of every file count its pictures
-- and have the time of its last; and every frame has its row.
pub on_frames-IsDecodable :
    (json : Json) (e : ℕ) (fs : List Frame)
    → let d = on_frames json begin fs in
      (file e d.streams ≡ of_epoch e (deliver Gate.reset fs))
      × IsDecodable none (file e d.streams)
      × All IsMeasured d.streams
      × (map (λ r. r.frame) d.rows ≡ fs)
on_frames-IsDecodable json e fs =
    let whole = file-on_frames json e begin fs in
    let passed = deliver Gate.reset fs in
    let (measured, rows) = on_frames-IsMeasured json begin fs tt in
    (
      whole,
      rw whole (
          of_epoch-IsDecodable e none none passed tt (deliver-All Gate.reset fs)
            (deliver-IsDecodable fs)),
      measured,
      rows,
    )
