-- ===== src/Config/Valid.antt =====
-- What a configuration of src/t6_kvm/config.py has to be, and the tests of single values.
use nanopc_t6_kvm.Base.{
  ℕ, ◌%◌, ◌≤◌, ◌≡◌, ◌≢◌, ◌↔◌, ◌⊎◌, inl, inr, refl, ap, arith, Bool, true, false, List, [], ◌∷◌, All,
  list_eq_iff, ok, raise_if, >>=-eq-ok,
}
use nanopc_t6_kvm.Value.{Value, pos, negsuc, null, boolean, int, float, not_finite, str, arr, obj}
use nanopc_t6_kvm.Broker.{codes}
use nanopc_t6_kvm.Config.{Config, ConfigError, Check, each, in_range, is_stall, is_text}
use nanopc_t6_kvm.Config.Paths.{is_path, utf8_size}

abbrev pub InRange : ℕ → ℕ → Value → Type 0
InRange lo hi v = (n : ℕ) × (v ≡ int (pos n)) × (lo ≤ n) × (n ≤ hi)

abbrev pub IsStall : Value → Type 0
IsStall v = InRange 2 60 v ⊎ ((x : ℕ) × (v ≡ float (pos x)) × (2000000 ≤ x) × (x ≤ 60000000))

-- An expected size, zero for any, and the largest.
abbrev pub IsAxis : Value → Value → Type 0
IsAxis expected maximum =
    (e : ℕ) × (m : ℕ) × (expected ≡ int (pos e))
    × (maximum ≡ int (pos m))
    × (e ≤ m)
    × (e % 2 ≡ 0)
    × (m % 2 ≡ 0)

abbrev pub IsPath : Value → Type 0
IsPath v = (s : List ℕ) × (v ≡ str s) × (is_path s ≡ true)

abbrev pub IsSocket : Value → Type 0
IsSocket v = (s : List ℕ) × (v ≡ str s) × (utf8_size s ≤ 100)

pub record IsConfig (c : Config) : Type 0 where
  pub fps : InRange 1 60 c.fps
  pub bitrate_kbps : InRange 100 35000 c.bitrate_kbps
  pub gop : InRange 1 120 c.gop
  pub max_width : InRange 64 3840 c.max_width
  pub max_height : InRange 64 2160 c.max_height
  pub queue_frames : InRange 1 8 c.queue_frames
  pub stall_seconds : IsStall c.stall_seconds
  pub width : IsAxis c.expected_width c.max_width
  pub height : IsAxis c.expected_height c.max_height
  pub both : (c.expected_width ≡ int (pos 0)) ↔ (c.expected_height ≡ int (pos 0))
  pub input_mode : c.input_mode ≡ str (codes "native")
  pub copy_mode : c.copy_mode ≡ str (codes "copy")
  pub policy : (c.policy ≡ str (codes "takeover")) ⊎ (c.policy ≡ str (codes "reject"))
  pub device : IsPath c.device
  pub native : IsPath c.native
  pub http_socket : IsPath c.http_socket × IsSocket c.http_socket
  pub frame_socket : IsPath c.frame_socket × IsSocket c.frame_socket
  pub apart : c.http_socket ≢ c.frame_socket

pub raise_if-false : (b : Bool) (e : ConfigError) {u : Unit {0}} → raise_if b e ≡ ok u → b ≡ false
raise_if-false true e h = cc
raise_if-false false e h = refl

pub each-All :
    {A : Type 0} (f : A → Check) (xs : List A) {u : Unit {0}}
    → each f xs ≡ ok u
    → All (λ x. f x ≡ ok tt) xs
each-All f [] h = tt
each-All f (x ∷ xs) h =
    let (u, first, rest) = >>=-eq-ok (f x) (λ _. each f xs) h in (first, each-All f xs rest)

pub All-each :
    {A : Type 0} (f : A → Check) (xs : List A) → All (λ x. f x ≡ ok tt) xs → each f xs ≡ ok tt
All-each f [] h = refl
All-each f (x ∷ xs) (p, ps) = rw p (All-each f xs ps)

pub in_range-InRange : (lo hi : ℕ) (v : Value) → in_range lo hi v ≡ true → InRange lo hi v
in_range-InRange lo hi (int (pos n)) h = (n, refl, ground arith, ground arith)
in_range-InRange lo hi (int (negsuc n)) h = cc
in_range-InRange lo hi null h = cc
in_range-InRange lo hi (boolean b) h = cc
in_range-InRange lo hi (float x) h = cc
in_range-InRange lo hi not_finite h = cc
in_range-InRange lo hi (str s) h = cc
in_range-InRange lo hi (arr xs) h = cc
in_range-InRange lo hi (obj fs) h = cc

pub InRange-in_range : (lo hi : ℕ) (v : Value) → InRange lo hi v → in_range lo hi v ≡ true
InRange-in_range lo hi v (n, e, least, most) = rw e (ground arith)

pub is_stall-IsStall : (v : Value) → is_stall v ≡ true → IsStall v
is_stall-IsStall (int (pos n)) h = inl (n, refl, ground arith, ground arith)
is_stall-IsStall (float (pos x)) h = inr (x, refl, ground arith, ground arith)
is_stall-IsStall (int (negsuc n)) h = cc
is_stall-IsStall (float (negsuc n)) h = cc
is_stall-IsStall null h = cc
is_stall-IsStall (boolean b) h = cc
is_stall-IsStall not_finite h = cc
is_stall-IsStall (str s) h = cc
is_stall-IsStall (arr xs) h = cc
is_stall-IsStall (obj fs) h = cc

pub IsStall-is_stall : (v : Value) → IsStall v → is_stall v ≡ true
IsStall-is_stall v (inl (n, e, least, most)) = rw e (ground arith)
IsStall-is_stall v (inr (x, e, least, most)) = rw e (ground arith)

pub is_text-eq : (t : List ℕ) (v : Value) → is_text t v ≡ true → v ≡ str t
is_text-eq t (str s) h = ap str ((list_eq_iff s t).0 h)
is_text-eq t null h = cc
is_text-eq t (boolean b) h = cc
is_text-eq t (int n) h = cc
is_text-eq t (float x) h = cc
is_text-eq t not_finite h = cc
is_text-eq t (arr xs) h = cc
is_text-eq t (obj fs) h = cc

pub is_text_refl : (t : List ℕ) (v : Value) → v ≡ str t → is_text t v ≡ true
is_text_refl t v e = rw e ((list_eq_iff t t).1 refl)
