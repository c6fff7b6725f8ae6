-- ===== src/Gate/Decodable.antt =====
-- What a decoder can show: the specification of `RecoveryGate`, and its soundness.
use nanopc_t6_kvm.Base.{
  ◌+◌, ◌≡◌, ◌≢◌, ◌⊎◌, refl, arith, Bool, true, false, List, [], ◌∷◌, ◌++◌, Option, none, some, ◌==◌,
  if◌then◌else◌,
}
use nanopc_t6_kvm.Protocol.{Frame, au, is_key, is_discontinuity}
use nanopc_t6_kvm.Gate.{RecoveryGate, reset, accept}

-- `f` is the picture right behind `p`: same epoch and size, the next number, no discontinuity.
pub record Follows (p f : Frame) : Type 0 where
  pub continuous : is_discontinuity f ≡ false
  pub epoch : f.epoch ≡ p.epoch
  pub width : f.width ≡ p.width
  pub height : f.height ≡ p.height
  pub sequence : f.sequence ≡ p.sequence + 1

-- The picture that a decoder holds after a frame: none after a status.
abbrev pub after : Frame → Option Frame
after f = if f.kind == au then some f else none

pub after-au : (f : Frame) → f.kind ≡ au → after f ≡ some f
after-au f k = ground arith

abbrev pub FollowsLast : Option Frame → Frame → Type 0
FollowsLast none f = ⊥
FollowsLast (some p) f = Follows p f

-- A decoder that holds `last` can show `f`: a status, a key picture, or the picture right behind.
abbrev pub CanShow : Option Frame → Frame → Type 0
CanShow last f = (f.kind ≢ au) ⊎ (is_key f ≡ true) ⊎ FollowsLast last f

abbrev pub IsDecodable : Option Frame → List Frame → Type 0
IsDecodable last [] = Unit
IsDecodable last (f ∷ fs) = CanShow last f × IsDecodable (after f) fs

-- The picture that a decoder holds after a list of frames.
abbrev pub last_after : Option Frame → List Frame → Option Frame
last_after last [] = last
last_after last (f ∷ fs) = last_after (after f) fs

pub IsDecodable-append :
    (last : Option Frame) (xs ys : List Frame)
    → IsDecodable last xs
    → IsDecodable (last_after last xs) ys
    → IsDecodable last (xs ++ ys)
IsDecodable-append last [] ys h k = k
IsDecodable-append last (x ∷ xs) ys h k = (h.0, IsDecodable-append (after x) xs ys h.1 k)

pub IsDecodable-left :
    (last : Option Frame) (xs ys : List Frame) → IsDecodable last (xs ++ ys) → IsDecodable last xs
IsDecodable-left last [] ys h = tt
IsDecodable-left last (x ∷ xs) ys h = (h.0, IsDecodable-left (after x) xs ys h.1)

pub last_after-append :
    (last : Option Frame) (xs ys : List Frame)
    → last_after last (xs ++ ys) ≡ last_after (last_after last xs) ys
last_after-append last [] ys = refl
last_after-append last (x ∷ xs) ys = last_after-append (after x) xs ys

-- A gate that needs no key has just seen the picture that the decoder holds.
abbrev pub HasSeen : RecoveryGate → Option Frame → Type 0
HasSeen g none = ⊥
HasSeen g (some p) =
    (g.epoch ≡ p.epoch)
    × (g.sequence ≡ p.sequence)
    × (g.geometry.0 ≡ p.width)
    × (g.geometry.1 ≡ p.height)

abbrev pub Tracks : RecoveryGate → Option Frame → Type 0
Tracks g last = g.need_key ≡ false → HasSeen g last

pub Tracks-reset : (last : Option Frame) → Tracks reset last
Tracks-reset last h = absurd (ground arith)

-- What one call of `accept` has done, for a decoder that held `last`.
abbrev pub Accepted : Option Frame → Frame → RecoveryGate × Bool → Type 0
Accepted last f (g, true) = (f.kind ≡ au) × CanShow last f × Tracks g (some f)
Accepted last f (g, false) = g.need_key ≡ true

pub accept-Accepted :
    (g : RecoveryGate) (last : Option Frame) (f : Frame)
    → Tracks g last
    → Accepted last f (accept g f)
unfolding accept
accept-Accepted g none f h = ground arith
accept-Accepted g (some p) f h = ground arith

pub Tracks-lost : (g : RecoveryGate) (last : Option Frame) → g.need_key ≡ true → Tracks g last
Tracks-lost g last lost h = absurd (cc)

-- The frames that a reader passes on which asks the gate about each: the loops of
-- src/t6_kvm/kvmd_adapter.py and tools/dump_frames.py.
unfoldable pub deliver : RecoveryGate → List Frame → List Frame
deliver g [] = []
deliver g (f ∷ fs) =
    let (g', pass) = accept g f in let rest = deliver g' fs in if pass then f ∷ rest else rest

Tracks-deliver :
    (g : RecoveryGate) (last : Option Frame) (fs : List Frame)
    → Tracks g last
    → IsDecodable last (deliver g fs)
unfolding deliver
Tracks-deliver g last [] h = tt
Tracks-deliver g last (f ∷ fs) h =
    go (accept g f) (accept-Accepted g last f h) (λ g' l t. Tracks-deliver g' l fs t)
  where
    go :
        (r : RecoveryGate × Bool)
        → Accepted last f r
        → ((g' : RecoveryGate) (l : Option Frame) → Tracks g' l → IsDecodable l (deliver g' fs))
        → IsDecodable last (let rest = deliver r.0 fs in if r.1 then f ∷ rest else rest)
    go (g', true) (k, show, tracks) ih = (show, rw (after-au f k) (ih g' (some f) tracks))
    go (g', false) lost ih = ih g' last (Tracks-lost g' last lost)

-- Whatever frames arrive, in whatever order and with whatever losses, a fresh gate passes on only
-- what a decoder can show: each picture is a key or stands right behind the one passed on before it.
pub deliver-IsDecodable : (fs : List Frame) → IsDecodable none (deliver reset fs)
deliver-IsDecodable fs = Tracks-deliver reset none fs (Tracks-reset none)
