-- ===== src/Gate/Passes.antt =====
-- `RecoveryGate.accept` of src/t6_kvm/protocol.py holds back no more than it must.
use nanopc_t6_kvm.Base.{
  ◌≡◌, ◌↔◌, ◌⊎◌, inl, inr, refl, ap, arith, true, false, List, [], ◌∷◌, Bool-cases, All,
}
use nanopc_t6_kvm.Protocol.{Frame, au, is_key}
use nanopc_t6_kvm.Gate.{RecoveryGate, breaks, seen, accept}
use nanopc_t6_kvm.Gate.Decodable.{Follows, deliver}

-- Behind a picture that was passed on, exactly the key pictures and the picture right behind pass.
accept_iff :
    (p f : Frame)
    → ((accept (seen false p) f).1 ≡ true) ↔ ((f.kind ≡ au) × ((is_key f ≡ true) ⊎ Follows p f))
unfolding accept
accept_iff p f = (λ h. ground arith, λ h. ground arith)

-- While a key is needed, exactly the key pictures pass.
pub accept_lost_iff :
    (g : RecoveryGate) (f : Frame)
    → g.need_key ≡ true
    → ((accept g f).1 ≡ true) ↔ ((f.kind ≡ au) × (is_key f ≡ true))
unfolding accept
accept_lost_iff g f lost = (λ h. ground arith, λ h. ground arith)

-- A run of pictures behind `p`, each right behind the one before it.
abbrev pub IsRun : Frame → List Frame → Type 0
IsRun p [] = Unit
IsRun p (f ∷ fs) = (f.kind ≡ au) × Follows p f × IsRun f fs

accept_key :
    (g : RecoveryGate) (k : Frame)
    → k.kind ≡ au
    → is_key k ≡ true
    → accept g k ≡ (seen false k, true)
unfolding accept
accept_key g k a key = ground arith

accept_next :
    (p f : Frame) → f.kind ≡ au → Follows p f → accept (seen false p) f ≡ (seen false f, true)
unfolding accept
accept_next p f a h = ground arith

deliver_run : (p : Frame) (fs : List Frame) → IsRun p fs → deliver (seen false p) fs ≡ fs
unfolding deliver
deliver_run p [] h = refl
deliver_run p (f ∷ fs) (a, next, run) =
    rw (accept_next p f a next) (ap (λ t. f ∷ t) (deliver_run f fs run))

-- A key picture and the run behind it pass whole, whatever the gate has seen before.
pub deliver_gop :
    (g : RecoveryGate) (k : Frame) (fs : List Frame)
    → k.kind ≡ au
    → is_key k ≡ true
    → IsRun k fs
    → deliver g (k ∷ fs) ≡ k ∷ fs
unfolding deliver
deliver_gop g k fs a key run = rw (accept_key g k a key) (ap (λ t. k ∷ t) (deliver_run k fs run))

accept_lost :
    (g : RecoveryGate) (f : Frame)
    → g.need_key ≡ true
    → is_key f ≡ false
    → ((accept g f).0.need_key ≡ true) × ((accept g f).1 ≡ false)
unfolding accept
accept_lost g f lost h = (ground arith, ground arith)

deliver_lost :
    (g : RecoveryGate) (fs : List Frame)
    → g.need_key ≡ true
    → All (λ f. is_key f ≡ false) fs
    → deliver g fs ≡ []
unfolding deliver
deliver_lost g [] lost h = refl
deliver_lost g (f ∷ fs) lost h =
    let (still, no_pass) = accept_lost g f lost h.0 in
    rw no_pass (deliver_lost (accept g f).0 fs still h.1)

Follows-unbroken : (p f : Frame) → breaks (seen false p) f ≡ false → Follows p f
Follows-unbroken p f h = ground arith

breaks-true : (p f : Frame) → ¬ Follows p f → breaks (seen false p) f ≡ true
breaks-true p f gap = elim (Bool-cases (breaks (seen false p) f)) [
  | inl e ↦ e
  | inr e ↦ absurd (gap (Follows-unbroken p f e))
]

accept_gap :
    (p f : Frame)
    → is_key f ≡ false
    → ¬ Follows p f
    → ((accept (seen false p) f).0.need_key ≡ true) × ((accept (seen false p) f).1 ≡ false)
unfolding accept
accept_gap p f h gap = let broken = breaks-true p f gap in (ground arith, ground arith)

-- Once a picture does not stand right behind the last one, no picture passes until the next key,
-- however the numbers go on.
deliver_gap :
    (p f : Frame) (fs : List Frame)
    → ¬ Follows p f
    → All (λ g. is_key g ≡ false) (f ∷ fs)
    → deliver (seen false p) (f ∷ fs) ≡ []
unfolding deliver
deliver_gap p f fs gap h =
    let (lost, no_pass) = accept_gap p f h.0 gap in
    rw no_pass (deliver_lost (accept (seen false p) f).0 fs lost h.1)
