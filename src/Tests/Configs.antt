-- ===== src/Tests/Configs.antt =====
-- Configurations of src/t6_kvm/config.py.
use nanopc_t6_kvm.Base.{ℕ, ◌≡◌, ◌↔◌, refl, false, List, ◌∷◌, none, some, ok, err}
use nanopc_t6_kvm.Value.{pos, int, str, Fields, end, field}
use nanopc_t6_kvm.Broker.{codes}
use nanopc_t6_kvm.Config.{
  Config, default, validate, bad_path, odd_dimension, half_expected, check_types,
}
use nanopc_t6_kvm.Config.Paths.{is_path}
use nanopc_t6_kvm.Config.Valid.{IsConfig}
use nanopc_t6_kvm.Config.Start.{unknown_keys, load, Options, main, native_argv}
use nanopc_t6_kvm.Config.Start.Argv.{IsTold, main-IsTold}
use nanopc_t6_kvm.Config.Accepts.{validate-IsConfig_iff}

default-validate : validate default ≡ ok default
unfolding validate check_types is_path
default-validate = refl

parent_path :
    validate (record default { native = str (codes "/opt/../bin/t6-capture") })
    ≡ err (bad_path (codes "native"))
unfolding validate check_types is_path
parent_path = refl

odd_width : validate (record default { max_width = int (pos 1919) }) ≡ err odd_dimension
unfolding validate check_types is_path
odd_width = refl

one_expected : validate (record default { expected_width = int (pos 640) }) ≡ err half_expected
unfolding validate check_types is_path
one_expected = refl

validate-IsConfig_iff_example :
    (validate default ≡ ok default) ↔ (IsConfig default × (default ≡ default))
validate-IsConfig_iff_example = validate-IsConfig_iff default default

abbrev file : Fields
file = field (codes "fps") (int (pos 30)) (field (codes "gop") (int (pos 15)) end)

abbrev options : Options
options = record {
  features = false;
  unix = some (codes "/run/t6-kvm/other.sock");
  desired_fps = none;
  h264_bitrate = some (pos 8000);
  h264_gop = none;
}

abbrev started : Config
started = record default {
  fps = int (pos 30);
  gop = int (pos 15);
  http_socket = str (codes "/run/t6-kvm/other.sock");
  bitrate_kbps = int (pos 8000);
}

misspelt : load (some (field (codes "fsp") (int (pos 30)) end)) ≡ err unknown_keys
unfolding load
misspelt = refl

main-started : main (some file) options ≡ ok (some started)
unfolding main load validate check_types is_path
main-started = refl

main-IsTold_example :
    IsConfig started
    × ((program : List ℕ) × (worker_options : List (List ℕ)) × (native_argv started
          ≡ some (program ∷ worker_options))
        × (started.native ≡ str program)
        × IsTold started worker_options)
main-IsTold_example = main-IsTold (some file) options main-started
