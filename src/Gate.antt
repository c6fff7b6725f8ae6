-- ===== src/Gate.antt =====
-- `RecoveryGate` of src/t6_kvm/protocol.py: what may be shown after a loss.
pub mod Decodable
pub mod Passes
use nanopc_t6_kvm.Base.{ℕ, ◌+◌, Bool, true, false, ◌&&◌, ◌||◌, not, ◌==◌, if◌then◌else◌}
use nanopc_t6_kvm.Protocol.{Frame, au, is_key, is_discontinuity}

pub record RecoveryGate : Type 0 where
  pub need_key : Bool
  pub epoch : ℕ
  pub sequence : ℕ
  pub geometry : ℕ × ℕ

-- `reset`, which `__init__` calls too: it sets every field.
abbrev pub reset : RecoveryGate
reset = record { need_key = true; epoch = 0; sequence = 0; geometry = (0, 0) }

-- The test of `accept` that a picture depends on nothing lost.
abbrev pub breaks : RecoveryGate → Frame → Bool
breaks g f =
    is_discontinuity f
    || not (f.epoch == g.epoch)
    || not (f.width == g.geometry.0 && f.height == g.geometry.1)
    || not (f.sequence == g.sequence + 1)

abbrev pub seen : Bool → Frame → RecoveryGate
seen need f = record {
  need_key = need;
  epoch = f.epoch;
  sequence = f.sequence;
  geometry = (f.width, f.height);
}

unfoldable pub accept : RecoveryGate → Frame → RecoveryGate × Bool
accept g f =
    if not (f.kind == au)
    then (reset, false)
    else (let need = g.need_key || breaks g f in
        if need && not (is_key f)
        then (seen need f, false)
        else if is_key f
        then (seen false f, true)
        else (seen need f, true))
