-- ===== src/Config/Start/Argv.antt =====
-- What the worker of a configuration is told.
use nanopc_t6_kvm.Base.{
  ℕ, ◌*◌, ◌≡◌, inl, inr, refl, ap, List, [], ◌∷◌, Option, none, some, if◌then◌else◌, Bool-cases,
  list_eq, Result, ok, err, ◌>>=◌, >>=-eq-ok, ok-injective,
}
use nanopc_t6_kvm.Base.Decimal.{decimal, number, number-decimal}
use nanopc_t6_kvm.Value.{Fields, pos, int, str}
use nanopc_t6_kvm.Broker.{codes}
use nanopc_t6_kvm.Config.{Config, ConfigError, validate}
use nanopc_t6_kvm.Config.Valid.{IsConfig}
use nanopc_t6_kvm.Config.Sound.{validate-IsConfig}
use nanopc_t6_kvm.Config.Start.{
  on_valid, checked, load, Options, override, main, native_options, native_argv,
}

-- The value behind an option's name, read as the worker reads it.
abbrev pub value_of : List ℕ → List (List ℕ) → Option (List ℕ)
value_of name [] = none
value_of name (a ∷ []) = none
value_of name (a ∷ b ∷ rest) =
    let later = value_of name rest in if list_eq a name then some b else later

abbrev pub read_option : List ℕ → List (List ℕ) → Option ℕ
read_option name argv = elim (value_of name argv) [ none ↦ none | some t ↦ some (number 0 t) ]

-- The worker is told the configuration's numbers, the bitrate in bits.
pub record IsTold (c : Config) (options : List (List ℕ)) : Type 0 where
  pub device : (s : List ℕ) × (c.device ≡ str s) × (value_of (codes "--device") options ≡ some s)
  pub fps : (n : ℕ) × (c.fps ≡ int (pos n)) × (read_option (codes "--fps") options ≡ some n)
  pub bitrate :
      (n : ℕ) × (c.bitrate_kbps ≡ int (pos n))
      × (read_option (codes "--bitrate") options ≡ some (n * 1000))
  pub gop : (n : ℕ) × (c.gop ≡ int (pos n)) × (read_option (codes "--gop") options ≡ some n)
  pub max_width :
      (n : ℕ) × (c.max_width ≡ int (pos n)) × (read_option (codes "--max-width") options ≡ some n)
  pub max_height :
      (n : ℕ) × (c.max_height ≡ int (pos n)) × (read_option (codes "--max-height") options ≡ some n)
  pub expected_width :
      (n : ℕ) × (c.expected_width ≡ int (pos n))
      × (read_option (codes "--expected-width") options ≡ some n)
  pub expected_height :
      (n : ℕ) × (c.expected_height ≡ int (pos n))
      × (read_option (codes "--expected-height") options ≡ some n)

native_options-IsTold :
    (c : Config)
    → IsConfig c
    → (options : List (List ℕ)) × (native_options c ≡ some options) × IsTold c options
unfolding native_options
native_options-IsTold c v =
    let (device, is_device, _) = v.device in
    let (fps, is_fps, _, _) = v.fps in
    let (rate, is_rate, _, _) = v.bitrate_kbps in
    let (gop, is_gop, _, _) = v.gop in
    let (width, is_width, _, _) = v.max_width in
    let (height, is_height, _, _) = v.max_height in
    let (x, _, is_x, _, _, _, _) = v.width in
    let (y, _, is_y, _, _, _, _) = v.height in
    (
      codes "--device"
          ∷ device
          ∷ codes "--fps"
          ∷ decimal fps
          ∷ codes "--bitrate"
          ∷ decimal (rate * 1000)
          ∷ codes "--gop"
          ∷ decimal gop
          ∷ codes "--max-width"
          ∷ decimal width
          ∷ codes "--max-height"
          ∷ decimal height
          ∷ codes "--expected-width"
          ∷ decimal x
          ∷ codes "--expected-height"
          ∷ decimal y
          ∷ [],
      rw (is_device, is_fps, is_rate, is_gop, is_width, is_height, is_x, is_y) refl,
      record {
        device = (device, is_device, refl);
        fps = (fps, is_fps, ap some (number-decimal fps));
        bitrate = (rate, is_rate, ap some (number-decimal (rate * 1000)));
        gop = (gop, is_gop, ap some (number-decimal gop));
        max_width = (width, is_width, ap some (number-decimal width));
        max_height = (height, is_height, ap some (number-decimal height));
        expected_width = (x, is_x, ap some (number-decimal x));
        expected_height = (y, is_y, ap some (number-decimal y));
      },
    )

native_argv-IsTold :
    (c : Config)
    → IsConfig c
    → (program : List ℕ) × (options : List (List ℕ)) × (native_argv c ≡ some (program ∷ options))
      × (c.native ≡ str program)
      × IsTold c options
unfolding native_argv
native_argv-IsTold c v =
    let (program, is_program, _) = v.native in
    let (options, made, told) = native_options-IsTold c v in
    (program, options, rw (made, is_program) refl, is_program, told)

checked-IsConfig : (c : Config) {d : Config} → checked c ≡ ok d → IsConfig d
checked-IsConfig c {d} e = go (validate c) refl e
  where
    go : (r : Result ConfigError Config) → validate c ≡ r → on_valid r ≡ ok d → IsConfig d
    go (err x) k e = cc
    go (ok v) k e =
        let same : v ≡ d = ok-injective e in
        let (good, copy) = validate-IsConfig c k in rw (← same, copy) good

-- Where `main` runs the broker, whatever the file and the options are, its configuration is valid, and the
-- worker is told this configuration.
pub main-IsTold :
    (file : Option Fields) (o : Options) {d : Config}
    → main file o ≡ ok (some d)
    → IsConfig d
      × ((program : List ℕ) × (options : List (List ℕ)) × (native_argv d ≡ some (program ∷ options))
          × (d.native ≡ str program)
          × IsTold d options)
unfolding main
main-IsTold file o {d} e = elim (Bool-cases o.features) [
  | inl printed ↦ let q = rw printed at e in cc
  | inr started ↦
      let (c, loaded, rest) =
        >>=-eq-ok (load file) (λ c. checked (override o c) >>= λ v. ok (some v))
          (rw started at e) in
      let (v, valid, last) = >>=-eq-ok (checked (override o c)) (λ v. ok (some v)) rest in
      let same : v ≡ d = cc in
      let good : IsConfig d = rw (← same) (checked-IsConfig (override o c) valid) in
      (good, native_argv-IsTold d good)
]
