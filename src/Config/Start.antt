-- ===== src/Config/Start.antt =====
-- From the configuration's file to the worker: `load` and `native_argv` of src/t6_kvm/config.py, and `main`
-- of src/t6_kvm/daemon.py up to the broker's start.
pub mod Argv
use nanopc_t6_kvm.Base.{
  ℕ, zero, suc, ◌+◌, ◌-◌, ◌*◌, ◌/◌, ◌%◌, ◌^◌, ◌≤◌, ◌<◌, ◌≡◌, ◌≢◌, ◌↔◌, ◌⊎◌, inl, inr, refl, sym, ap,
  ◌∙◌, arith, Bool, true, false, ◌&&◌, ◌||◌, not, List, [], ◌∷◌, ◌++◌, map, Option, none, some, ltb,
  leb, ◌==◌, if◌then◌else◌, has_bit, ==_refl, ==_iff, Bool-cases, Option-cases, length, get_elem?,
  take, drop, All, length-append, length-reverse, take-append, drop-append, take-append-drop,
  length-take, take_all, take-append_le, drop-append_le, length-drop, All-take, All-drop,
  All-append, All-left, list_eq, list_eq_iff, contains, Result, ok, err, ◌>>=◌, ◌>>◌, raise_if,
  >>=-eq-ok, raise_if-eq-ok, ok-injective, err-injective, not-eq-false, IsByte, be, from_be,
  length-be, from_be-be, be-from_be, from_be-lt, take-be, drop-be,
}
use nanopc_t6_kvm.Base.Decimal.{decimal}
use nanopc_t6_kvm.Value.{Value, Fields, end, field, get, ℤ, pos, int, str}
use nanopc_t6_kvm.Broker.{codes}
use nanopc_t6_kvm.Panel.Backups.{member}
use nanopc_t6_kvm.Panel.Update.{get_or}
use nanopc_t6_kvm.Config.{Config, ConfigError, default, validate}

abbrev pub field_names : List (List ℕ)
field_names =
    codes "device"
    ∷ codes "native"
    ∷ codes "http_socket"
    ∷ codes "frame_socket"
    ∷ codes "fps"
    ∷ codes "bitrate_kbps"
    ∷ codes "gop"
    ∷ codes "max_width"
    ∷ codes "max_height"
    ∷ codes "expected_width"
    ∷ codes "expected_height"
    ∷ codes "queue_frames"
    ∷ codes "stall_seconds"
    ∷ codes "policy"
    ∷ codes "input_mode"
    ∷ codes "copy_mode"
    ∷ []

-- `unreadable` is what `open` and `tomllib.load` raise.
pub data LoadError : Type 0 where
  unreadable unknown_keys : LoadError
  invalid : ConfigError → LoadError

-- `set(data)-{f.name for f in fields(Config)}` is not empty.
abbrev pub has_unknown : Fields → Bool
has_unknown end = false
has_unknown (field key v fs) = not (member field_names key) || has_unknown fs

-- `Config(**data)`
abbrev pub build : Fields → Config
build d = record {
  device = get_or (codes "device") default.device d;
  native = get_or (codes "native") default.native d;
  http_socket = get_or (codes "http_socket") default.http_socket d;
  frame_socket = get_or (codes "frame_socket") default.frame_socket d;
  fps = get_or (codes "fps") default.fps d;
  bitrate_kbps = get_or (codes "bitrate_kbps") default.bitrate_kbps d;
  gop = get_or (codes "gop") default.gop d;
  max_width = get_or (codes "max_width") default.max_width d;
  max_height = get_or (codes "max_height") default.max_height d;
  expected_width = get_or (codes "expected_width") default.expected_width d;
  expected_height = get_or (codes "expected_height") default.expected_height d;
  queue_frames = get_or (codes "queue_frames") default.queue_frames d;
  stall_seconds = get_or (codes "stall_seconds") default.stall_seconds d;
  policy = get_or (codes "policy") default.policy d;
  input_mode = get_or (codes "input_mode") default.input_mode d;
  copy_mode = get_or (codes "copy_mode") default.copy_mode d;
}

abbrev pub on_valid : Result ConfigError Config → Result LoadError Config
on_valid (err e) = err (invalid e)
on_valid (ok c) = ok c

-- `config.validate()`
abbrev pub checked : Config → Result LoadError Config
checked c = on_valid (validate c)

-- `load`, from what `tomllib.load` returns.
unfoldable pub load : Option Fields → Result LoadError Config
load none = err unreadable
load (some d) = raise_if (has_unknown d) unknown_keys >> checked (build d)

-- The options of the command line; argparse has read the numbers.
pub record Options : Type 0 where
  pub features : Bool
  pub unix : Option (List ℕ)
  pub desired_fps : Option ℤ
  pub h264_bitrate : Option ℤ
  pub h264_gop : Option ℤ

abbrev pub over_text : Option (List ℕ) → Value → Value
over_text none v = v
over_text (some s) v = str s

abbrev pub over_number : Option ℤ → Value → Value
over_number none v = v
over_number (some n) v = int n

-- `dataclasses.replace(config,**override)`
abbrev pub override : Options → Config → Config
override o c = record c {
  http_socket = over_text o.unix c.http_socket;
  fps = over_number o.desired_fps c.fps;
  bitrate_kbps = over_number o.h264_bitrate c.bitrate_kbps;
  gop = over_number o.h264_gop c.gop;
}

-- The configuration of the broker that `main` runs; `none` where it prints the features instead.
unfoldable pub main : Option Fields → Options → Result LoadError (Option Config)
main file o =
    if o.features then ok none else load file >>= λ c. checked (override o c) >>= λ d. ok (some d)

-- `str(value)` of a text and of a whole number that is not negative. `validate` lets no other value into the
-- fields that the worker is told.
abbrev pub shown : Value → Option (List ℕ)
shown (str s) = some s
shown (int (pos n)) = some (decimal n)
shown v = none

abbrev pub thousandfold : Value → Value
thousandfold (int (pos n)) = int (pos (n * 1000))
thousandfold v = v

-- An option and its value, in front of the rest.
abbrev pub with_option : List ℕ → Value → Option (List (List ℕ)) → Option (List (List ℕ))
with_option name v none = none
with_option name v (some rest) = elim (shown v) [ none ↦ none | some t ↦ some (name ∷ t ∷ rest) ]

unfoldable pub native_options : Config → Option (List (List ℕ))
native_options c = with_option (codes "--device") c.device (
    with_option (codes "--fps") c.fps (
      with_option (codes "--bitrate") (thousandfold c.bitrate_kbps) (
        with_option (codes "--gop") c.gop (
          with_option (codes "--max-width") c.max_width (
            with_option (codes "--max-height") c.max_height (
              with_option (codes "--expected-width") c.expected_width
                (with_option (codes "--expected-height") c.expected_height (some []))))))))

abbrev pub with_program : Option (List ℕ) → Option (List (List ℕ)) → Option (List (List ℕ))
with_program (some p) (some options) = some (p ∷ options)
with_program p options = none

unfoldable pub native_argv : Config → Option (List (List ℕ))
native_argv c = with_program (shown c.native) (native_options c)
