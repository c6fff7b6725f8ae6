-- ===== src/Viewer/Pictures.antt =====
-- The dictionaries of `Frame.kvmd` and `Frame.from_kvmd` in src/t6_kvm/protocol.py.
use nanopc_t6_kvm.Base.{
  ℕ, ◌+◌, ◌<◌, ◌≡◌, refl, sym, ap, ◌∙◌, arith, Bool, true, false, if◌then◌else◌, has_bit,
}
use nanopc_t6_kvm.Protocol.{Frame, au, is_online, is_key, is_discontinuity}
use nanopc_t6_kvm.Viewer.{Picture, kvmd, from_kvmd}

bits :
    (b : Bool)
    → let n = 1 + (if b then 2 else 0) in
      (has_bit n 0 ≡ true) × (has_bit n 1 ≡ b) × (has_bit n 2 ≡ false)
bits true = (refl, refl, refl)
bits false = (refl, refl, refl)

flags_eq :
    (n : ℕ)
    → n < 8
    → has_bit n 0 ≡ true
    → has_bit n 2 ≡ false
    → 1 + (if has_bit n 1 then 2 else 0) ≡ n
flags_eq n small zeroth second = ground arith

-- A picture that is online is read back unchanged, and never as a discontinuity. A picture frame that is
-- online, no discontinuity and without a flag beyond the three is read back unchanged from its picture.
pub from_kvmd-kvmd :
    (p : Picture) (f : Frame)
    → p.online ≡ true
    → f.kind ≡ au
    → f.flags < 8
    → is_online f ≡ true
    → is_discontinuity f ≡ false
    → (kvmd (from_kvmd p) ≡ p) × (is_discontinuity (from_kvmd p) ≡ false) × (from_kvmd (kvmd f) ≡ f)
from_kvmd-kvmd p f on k small online smooth =
    let (b0, b1, b2) = bits p.key in
    (
      ap (λ o. record p { online = o; key = is_key (from_kvmd p) }) (b0 ∙ sym on)
          ∙ ap (λ key. record p { key = key }) b1,
      b2,
      ap (λ kind. record f { kind = kind; flags = (from_kvmd (kvmd f)).flags }) (sym k)
          ∙ ap (λ n. record f { flags = n }) (flags_eq f.flags small online smooth),
    )
