-- ===== src/Config/Accepts.antt =====
-- Which configurations `Config.validate` of src/t6_kvm/config.py accepts.
use nanopc_t6_kvm.Base.{
  ℕ, ◌≡◌, ◌↔◌, ◌⊎◌, inl, inr, refl, sym, ap, ◌∙◌, Bool, false, ◌||◌, not, List, [], ◌∷◌, Bool-cases,
  Result, ok, ◌>>◌, raise_if,
}
use nanopc_t6_kvm.Value.{Value, ℤ, int, str}
use nanopc_t6_kvm.Broker.{codes}
use nanopc_t6_kvm.Config.{
  Config, ConfigError, Check, check_int, check_str, paths, numbers, modes, check_types, in_range,
  ranges, check_range, check_axis, is_text, check_path, check_socket, validate, out_of_range,
}
use nanopc_t6_kvm.Config.Valid.{
  InRange, IsConfig, All-each, InRange-in_range, IsStall-is_stall, is_text_refl,
}
use nanopc_t6_kvm.Config.Axes.{
  IsAxis-check_axis, IsPath-check_path, IsSocket-check_socket, differ_iff, same_text_iff,
}
use nanopc_t6_kvm.Config.Sound.{validate-IsConfig}

then-ok :
    {B : Type 0} (m : Check) (k : Result ConfigError B) {b : B}
    → m ≡ ok tt
    → k ≡ ok b
    → (m >> k) ≡ ok b
then-ok m k e h = rw e h

passes : (b : Bool) (e : ConfigError) → b ≡ false → raise_if b e ≡ ok tt
passes b e h = rw h refl

text_passes : (name : List ℕ) (v : Value) {s : List ℕ} → v ≡ str s → check_str (name, v) ≡ ok tt
text_passes name v e = rw e refl

int_passes : (name : List ℕ) (v : Value) {n : ℤ} → v ≡ int n → check_int (name, v) ≡ ok tt
int_passes name v e = rw e refl

range_passes :
    (lo hi : ℕ) (name : List ℕ) (v : Value)
    → InRange lo hi v
    → raise_if (not (in_range lo hi v)) (out_of_range name) ≡ ok tt
range_passes lo hi name v r = let q = InRange-in_range lo hi v r in rw q refl

policy_passes :
    (v : Value) (s t : List ℕ)
    → (v ≡ str s) ⊎ (v ≡ str t)
    → not (is_text s v || is_text t v) ≡ false
policy_passes v s t (inl e) = let q = is_text_refl s v e in rw q refl
policy_passes v s t (inr e) = elim (Bool-cases (is_text s v)) [
  | inl first ↦ rw first refl
  | inr other ↦ let q = is_text_refl t v e in rw (other, q) refl
]

IsConfig-check_types : (c : Config) → IsConfig c → check_types c ≡ ok tt
unfolding check_types
IsConfig-check_types c v =
    let mode = elim v.policy as (λ _. check_str (codes "policy", c.policy) ≡ ok tt) [
      | inl e ↦ text_passes _ c.policy e
      | inr e ↦ text_passes _ c.policy e
    ] in
    then-ok _ _
      (All-each check_str (paths c) (
        text_passes _ c.device (v.device).1,
        (
          text_passes _ c.native (v.native).1,
          (
            text_passes _ c.http_socket (v.http_socket).0.1,
            (text_passes _ c.frame_socket (v.frame_socket).0.1, tt),
          ),
        ),
      ))
      (then-ok _ _
        (All-each check_int (numbers c) (
          int_passes _ c.fps (v.fps).1,
          (
            int_passes _ c.bitrate_kbps (v.bitrate_kbps).1,
            (
              int_passes _ c.gop (v.gop).1,
              (
                int_passes _ c.max_width (v.max_width).1,
                (
                  int_passes _ c.max_height (v.max_height).1,
                  (
                    int_passes _ c.expected_width (v.width).2,
                    (
                      int_passes _ c.expected_height (v.height).2,
                      (int_passes _ c.queue_frames (v.queue_frames).1, tt),
                    ),
                  ),
                ),
              ),
            ),
          ),
        ))
        (All-each check_str (modes c) (
          mode,
          (text_passes _ c.input_mode v.input_mode, (text_passes _ c.copy_mode v.copy_mode, tt)),
        )))

IsConfig-validate : (c : Config) → IsConfig c → validate c ≡ ok c
unfolding validate
IsConfig-validate c v = then-ok _ _ (IsConfig-check_types c v) (
    then-ok _ _
      (All-each check_range (ranges c) (
        range_passes 1 60 _ c.fps v.fps,
        (
          range_passes 100 35000 _ c.bitrate_kbps v.bitrate_kbps,
          (
            range_passes 1 120 _ c.gop v.gop,
            (
              range_passes 64 3840 _ c.max_width v.max_width,
              (
                range_passes 64 2160 _ c.max_height v.max_height,
                (range_passes 1 8 _ c.queue_frames v.queue_frames, tt),
              ),
            ),
          ),
        ),
      ))
      (then-ok _ _ (passes _ _ (ap not (IsStall-is_stall c.stall_seconds v.stall_seconds))) (
        then-ok _ _
          (passes _ _
            ((differ_iff c.expected_width c.expected_height _ _ (v.width).2 (v.height).2).1 v.both))
          (then-ok _ _
            (All-each check_axis
              ((c.expected_width, c.max_width) ∷ (c.expected_height, c.max_height) ∷ [])
              (
                IsAxis-check_axis c.expected_width c.max_width v.width,
                (IsAxis-check_axis c.expected_height c.max_height v.height, tt),
              ))
            (then-ok _ _
              (passes _ _ (ap not (is_text_refl (codes "native") c.input_mode v.input_mode)))
              (then-ok _ _
                (passes _ _ (ap not (is_text_refl (codes "copy") c.copy_mode v.copy_mode)))
                (then-ok _ _
                  (passes _ _ (policy_passes c.policy (codes "takeover") (codes "reject") v.policy))
                  (then-ok _ _
                    (All-each check_path (paths c) (
                      IsPath-check_path _ c.device v.device,
                      (
                        IsPath-check_path _ c.native v.native,
                        (
                          IsPath-check_path _ c.http_socket (v.http_socket).0,
                          (IsPath-check_path _ c.frame_socket (v.frame_socket).0, tt),
                        ),
                      ),
                    ))
                    (then-ok _ _
                      (All-each check_socket (c.http_socket ∷ c.frame_socket ∷ []) (
                        IsSocket-check_socket c.http_socket (v.http_socket).1,
                        (IsSocket-check_socket c.frame_socket (v.frame_socket).1, tt),
                      ))
                      (then-ok _ _
                        (passes _ _ (
                          (same_text_iff c.http_socket c.frame_socket _ (v.http_socket).0.1).1
                            v.apart))
                        refl))))))))))

-- `validate` returns a configuration exactly where it is valid by the description `IsConfig`, and then
-- it is the one that it was given.
pub validate-IsConfig_iff : (c d : Config) → (validate c ≡ ok d) ↔ (IsConfig c × (d ≡ c))
validate-IsConfig_iff c d = (validate-IsConfig c, λ (v, e). IsConfig-validate c v ∙ ap ok (sym e))
