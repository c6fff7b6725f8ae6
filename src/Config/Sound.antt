-- ===== src/Config/Sound.antt =====
-- What a configuration that `Config.validate` of src/t6_kvm/config.py accepts is.
use nanopc_t6_kvm.Base.{
  ℕ, ◌≡◌, ◌⊎◌, inl, inr, sym, false, ◌||◌, not, List, [], ◌∷◌, Bool-cases, All, Result, ok, ◌>>◌,
  raise_if, >>=-eq-ok, raise_if-eq-ok, ok-injective, not-eq-false,
}
use nanopc_t6_kvm.Value.{Value, str}
use nanopc_t6_kvm.Broker.{codes}
use nanopc_t6_kvm.Config.{
  Config, ConfigError, Check, each, paths, check_types, in_range, ranges, check_range, check_axis,
  is_text, check_path, check_socket, validate, out_of_range,
}
use nanopc_t6_kvm.Config.Valid.{
  InRange, IsConfig, raise_if-false, each-All, in_range-InRange, is_stall-IsStall, is_text-eq,
}
use nanopc_t6_kvm.Config.Axes.{
  check_axis-IsAxis, check_path-IsPath, check_socket-IsSocket, differ_iff, same_text_iff,
}

-- A loop that did not raise passed every element, and the rest ran.
each-eq-ok :
    {A B : Type 0} (f : A → Check) (xs : List A) (k : Result ConfigError B) {b : B}
    → (each f xs >> k) ≡ ok b
    → All (λ x. f x ≡ ok tt) xs × (k ≡ ok b)
each-eq-ok f xs k h =
    let (u, first, rest) = >>=-eq-ok (each f xs) (λ _. k) h in (each-All f xs first, rest)

either_text :
    (v : Value) (s t : List ℕ)
    → not (is_text s v || is_text t v) ≡ false
    → (v ≡ str s) ⊎ (v ≡ str t)
either_text v s t h = elim (Bool-cases (is_text s v)) [
  | inl first ↦ inl (is_text-eq s v first)
  | inr other ↦ inr (is_text-eq t v (rw other at (not-eq-false h)))
]

in_range-All :
    (lo hi : ℕ) (name : List ℕ) (v : Value) {u : Unit {0}}
    → raise_if (not (in_range lo hi v)) (out_of_range name) ≡ ok u
    → InRange lo hi v
in_range-All lo hi name v h = in_range-InRange lo hi v (not-eq-false (raise_if-false _ _ h))

pub validate-IsConfig : (c : Config) {d : Config} → validate c ≡ ok d → IsConfig c × (d ≡ c)
unfolding validate
validate-IsConfig c {d} h =
    let (_, _, h1) = >>=-eq-ok (check_types c) _ h in
    let ((fps, (rate, (gop, (width, (height, (queue, _)))))), h2) =
      each-eq-ok check_range (ranges c) _ h1 in
    let (stall, h3) = raise_if-eq-ok _ _ _ h2 in
    let (half, h4) = raise_if-eq-ok _ _ _ h3 in
    let ((x, (y, _)), h5) =
      each-eq-ok check_axis
        ((c.expected_width, c.max_width) ∷ (c.expected_height, c.max_height) ∷ []) _ h4 in
    let (input, h6) = raise_if-eq-ok _ _ _ h5 in
    let (copy, h7) = raise_if-eq-ok _ _ _ h6 in
    let (policy, h8) = raise_if-eq-ok _ _ _ h7 in
    let ((device, (native, (http, (frame, _)))), h9) = each-eq-ok check_path (paths c) _ h8 in
    let ((http_size, (frame_size, _)), h10) =
      each-eq-ok check_socket (c.http_socket ∷ c.frame_socket ∷ []) _ h9 in
    let (apart, h11) = raise_if-eq-ok _ _ _ h10 in
    let axis_x = check_axis-IsAxis c.expected_width c.max_width x in
    let axis_y = check_axis-IsAxis c.expected_height c.max_height y in
    (
      record {
        fps = in_range-All 1 60 _ c.fps fps;
        bitrate_kbps = in_range-All 100 35000 _ c.bitrate_kbps rate;
        gop = in_range-All 1 120 _ c.gop gop;
        max_width = in_range-All 64 3840 _ c.max_width width;
        max_height = in_range-All 64 2160 _ c.max_height height;
        queue_frames = in_range-All 1 8 _ c.queue_frames queue;
        stall_seconds = is_stall-IsStall c.stall_seconds (not-eq-false stall);
        width = axis_x;
        height = axis_y;
        both =
            (differ_iff c.expected_width c.expected_height axis_x.0 axis_y.0 axis_x.2 axis_y.2).0
              half;
        input_mode = is_text-eq (codes "native") c.input_mode (not-eq-false input);
        copy_mode = is_text-eq (codes "copy") c.copy_mode (not-eq-false copy);
        policy = either_text c.policy (codes "takeover") (codes "reject") policy;
        device = check_path-IsPath _ c.device device;
        native = check_path-IsPath _ c.native native;
        http_socket =
            (check_path-IsPath _ c.http_socket http, check_socket-IsSocket c.http_socket http_size);
        frame_socket = (
          check_path-IsPath _ c.frame_socket frame,
          check_socket-IsSocket c.frame_socket frame_size,
        );
        apart =
            (same_text_iff c.http_socket c.frame_socket _
                (check_socket-IsSocket c.http_socket http_size).1).0
              apart;
      },
      sym (ok-injective h11),
    )
