-- ===== src/Config.antt =====
-- `Config.validate` of src/t6_kvm/config.py.
pub mod Paths
pub mod Valid
pub mod Axes
pub mod Sound
pub mod Accepts
pub mod Start
use nanopc_t6_kvm.Base.{
  ℕ, ◌%◌, Bool, true, false, ◌&&◌, ◌||◌, not, List, [], ◌∷◌, ltb, leb, ◌==◌, list_eq, Result, ok,
  ◌>>=◌, ◌>>◌, raise_if,
}
use nanopc_t6_kvm.Value.{Value, ℤ, pos, negsuc, null, boolean, int, float, str, truthy}
use nanopc_t6_kvm.Broker.{codes}
use nanopc_t6_kvm.Config.Paths.{is_path, utf8_size}

-- The fields as they come from the file, or by default.
pub record Config : Type 0 where
  pub device : Value
  pub native : Value
  pub http_socket : Value
  pub frame_socket : Value
  pub fps : Value
  pub bitrate_kbps : Value
  pub gop : Value
  pub max_width : Value
  pub max_height : Value
  pub expected_width : Value
  pub expected_height : Value
  pub queue_frames : Value
  pub stall_seconds : Value
  pub policy : Value
  pub input_mode : Value
  pub copy_mode : Value

-- The fields' defaults.
abbrev pub default : Config
default = record {
  device = str (codes "/dev/video0");
  native = str (codes "/opt/t6-kvm/current/bin/t6-capture");
  http_socket = str (codes "/run/t6-kvm/streamer.sock");
  frame_socket = str (codes "/run/t6-kvm/frames.sock");
  fps = int (pos 60);
  bitrate_kbps = int (pos 20000);
  gop = int (pos 60);
  max_width = int (pos 1920);
  max_height = int (pos 1080);
  expected_width = int (pos 0);
  expected_height = int (pos 0);
  queue_frames = int (pos 3);
  stall_seconds = float (pos 8000000);
  policy = str (codes "takeover");
  input_mode = str (codes "native");
  copy_mode = str (codes "copy");
}

-- The `ValueError`s, with the field's name where the message has it.
pub data ConfigError : Type 0 where
  expected_integer expected_string out_of_range bad_path : List ℕ → ConfigError
  bad_stall half_expected exceeds_maximum odd_dimension : ConfigError
  bad_input bad_copy bad_policy long_socket same_sockets : ConfigError

abbrev pub Check : Type 0
Check = Result ConfigError (Unit {0})

-- A loop whose body may raise.
abbrev pub each : {A : Type 0} → (A → Check) → List A → Check
each f [] = ok tt
each f (x ∷ xs) = f x >> each f xs

-- `type(value) is int`, and `isinstance(value, str)`.
abbrev pub is_int : Value → Bool
is_int (int n) = true
is_int _ = false

abbrev pub is_str : Value → Bool
is_str (str s) = true
is_str _ = false

abbrev pub check_int : List ℕ × Value → Check
check_int (name, v) = raise_if (not (is_int v)) (expected_integer name)

abbrev pub check_str : List ℕ × Value → Check
check_str (name, v) = raise_if (not (is_str v)) (expected_string name)

abbrev pub paths : Config → List (List ℕ × Value)
paths c =
    (codes "device", c.device)
    ∷ (codes "native", c.native)
    ∷ (codes "http_socket", c.http_socket)
    ∷ (codes "frame_socket", c.frame_socket)
    ∷ []

abbrev pub numbers : Config → List (List ℕ × Value)
numbers c =
    (codes "fps", c.fps)
    ∷ (codes "bitrate_kbps", c.bitrate_kbps)
    ∷ (codes "gop", c.gop)
    ∷ (codes "max_width", c.max_width)
    ∷ (codes "max_height", c.max_height)
    ∷ (codes "expected_width", c.expected_width)
    ∷ (codes "expected_height", c.expected_height)
    ∷ (codes "queue_frames", c.queue_frames)
    ∷ []

abbrev pub modes : Config → List (List ℕ × Value)
modes c =
    (codes "policy", c.policy)
    ∷ (codes "input_mode", c.input_mode)
    ∷ (codes "copy_mode", c.copy_mode)
    ∷ []

-- The loop over `fields(self)`, in the order of the fields.
unfoldable pub check_types : Config → Check
check_types c = each check_str (paths c) >> (each check_int (numbers c) >> each check_str (modes c))

-- `lo <= value <= hi` of a whole number, with `lo` not negative.
abbrev pub in_range : ℕ → ℕ → Value → Bool
in_range lo hi (int (pos n)) = leb lo n && leb n hi
in_range lo hi _ = false

pub record Range : Type 0 where
  pub name : List ℕ
  pub lo : ℕ
  pub hi : ℕ
  pub value : Value

abbrev pub range : List ℕ → ℕ → ℕ → Value → Range
range name lo hi value = record { name = name; lo = lo; hi = hi; value = value }

abbrev pub ranges : Config → List Range
ranges c =
    range (codes "fps") 1 60 c.fps
    ∷ range (codes "bitrate_kbps") 100 35000 c.bitrate_kbps
    ∷ range (codes "gop") 1 120 c.gop
    ∷ range (codes "max_width") 64 3840 c.max_width
    ∷ range (codes "max_height") 64 2160 c.max_height
    ∷ range (codes "queue_frames") 1 8 c.queue_frames
    ∷ []

abbrev pub check_range : Range → Check
check_range r = raise_if (not (in_range r.lo r.hi r.value)) (out_of_range r.name)

-- A float is in millionths.
abbrev pub is_stall : Value → Bool
is_stall (int (pos n)) = leb 2 n && leb n 60
is_stall (float (pos x)) = leb 2000000 x && leb x 60000000
is_stall _ = false

-- `0 <= expected <= maximum`
abbrev pub at_most : Value → Value → Bool
at_most (int (pos e)) (int (pos m)) = leb e m
at_most _ _ = false

-- `bool(value % 2)`
abbrev pub is_odd : Value → Bool
is_odd (int (pos n)) = not (n % 2 == 0)
is_odd (int (negsuc n)) = n % 2 == 0
is_odd _ = false

abbrev pub check_axis : Value × Value → Check
check_axis (expected, maximum) =
    raise_if (not (at_most expected maximum)) exceeds_maximum
    >> raise_if (is_odd expected || is_odd maximum) odd_dimension

abbrev pub is_text : List ℕ → Value → Bool
is_text t (str s) = list_eq s t
is_text t _ = false

abbrev pub check_path : List ℕ × Value → Check
check_path (name, str s) = raise_if (not (is_path s)) (bad_path name)
check_path (name, _) = raise_if true (bad_path name)

abbrev pub check_socket : Value → Check
check_socket (str s) = raise_if (ltb 100 (utf8_size s)) long_socket
check_socket _ = raise_if true long_socket

abbrev pub same_text : Value → Value → Bool
same_text (str s) v = is_text s v
same_text _ _ = false

abbrev pub differ : Bool → Bool → Bool
differ true b = not b
differ false b = b

-- The checks of `validate` in their order.
unfoldable pub validate : Config → Result ConfigError Config
unfolding check_types
validate c = do
  check_types c
  each check_range (ranges c)
  raise_if (not (is_stall c.stall_seconds)) bad_stall
  raise_if (differ (truthy c.expected_width) (truthy c.expected_height)) half_expected
  each check_axis ((c.expected_width, c.max_width) ∷ (c.expected_height, c.max_height) ∷ [])
  raise_if (not (is_text (codes "native") c.input_mode)) bad_input
  raise_if (not (is_text (codes "copy") c.copy_mode)) bad_copy
  raise_if (not (is_text (codes "takeover") c.policy || is_text (codes "reject") c.policy))
      bad_policy
  each check_path (paths c)
  each check_socket (c.http_socket ∷ c.frame_socket ∷ [])
  raise_if (same_text c.http_socket c.frame_socket) same_sockets
  ok c
