-- ===== src/Broker/Window.antt =====
-- The window of picture times that `publish` of src/t6_kvm/daemon.py keeps for its rate.
use nanopc_t6_kvm.Base.{
  ℕ, ◌+◌, ◌≤◌, inl, inr, arith, List, [], ◌∷◌, ◌++◌, ltb, leb, Bool-cases, length, drop, All,
  length-append, length-drop, All-drop, All-append,
}
use nanopc_t6_kvm.Broker.Publish.{append_time, recent, rate_of, window}

abbrev IsSorted : List ℕ → Type 0
IsSorted [] = Unit
IsSorted (t ∷ ts) = All (λ u. t ≤ u) ts × IsSorted ts

-- Some times up to now, the oldest first, as a deque of `maxlen=600` holds them.
pub record IsWindow (now : ℕ) (ts : List ℕ) : Type 0 where
  pub bounded : length ts ≤ 600
  pub ordered : IsSorted ts
  pub past : All (λ t. t ≤ now) ts

All-weaken : {m n : ℕ} (ts : List ℕ) → m ≤ n → All (λ t. t ≤ m) ts → All (λ t. t ≤ n) ts
All-weaken [] h p = tt
All-weaken (t ∷ ts) h (p, ps) = (omega (arith, p, h), All-weaken ts h ps)

IsSorted-append :
    (now : ℕ) (ts : List ℕ) → IsSorted ts → All (λ t. t ≤ now) ts → IsSorted (ts ++ (now ∷ []))
IsSorted-append now [] s p = (tt, tt)
IsSorted-append now (t ∷ ts) (s, ss) (p, ps) =
    (All-append (λ u. t ≤ u) ts (now ∷ []) s (p, tt), IsSorted-append now ts ss ps)

IsSorted-tail : (ts : List ℕ) → IsSorted ts → IsSorted (drop 1 ts)
IsSorted-tail [] s = tt
IsSorted-tail (t ∷ ts) (s, ss) = ss

append_time-IsWindow :
    (t0 now : ℕ) (ts : List ℕ) → t0 ≤ now → IsWindow t0 ts → IsWindow now (append_time now ts)
append_time-IsWindow t0 now ts h w = elim (Bool-cases (leb 600 (length ts))) [
  | inl long ↦ rw long (
      one (drop 1 ts) (rw (length-drop 1 ts) (omega (arith, w.bounded)))
        (IsSorted-tail ts w.ordered) (All-drop (λ t. t ≤ now) 1 ts (All-weaken ts h w.past)))
  | inr short ↦ rw short (one ts (ground arith) w.ordered (All-weaken ts h w.past))
]
  where
    one :
        (us : List ℕ)
        → length us ≤ 599
        → IsSorted us
        → All (λ t. t ≤ now) us
        → IsWindow now (us ++ (now ∷ []))
    one us b s p = record {
      bounded = rw (length-append us (now ∷ [])) (omega (arith, b));
      ordered = IsSorted-append now us s p;
      past = All-append (λ t. t ≤ now) us (now ∷ []) p (omega arith, tt);
    }

recent-le : (now : ℕ) (ts : List ℕ) → length (recent now ts) ≤ length ts
unfolding recent
recent-le now [] = omega arith
recent-le now (t ∷ ts) = elim (Bool-cases (ltb (t + 5000000) now)) [
  | inl old ↦ rw (recent, old) (omega (arith, recent-le now ts))
  | inr new ↦ rw (recent, new) (omega arith)
]

recent-All : (P : ℕ → Type 0) (now : ℕ) (ts : List ℕ) → All P ts → All P (recent now ts)
unfolding recent
recent-All P now [] p = tt
recent-All P now (t ∷ ts) p = elim (Bool-cases (ltb (t + 5000000) now)) [
  | inl old ↦ rw (recent, old) (recent-All P now ts p.1)
  | inr new ↦ rw (recent, new) p
]

recent-IsSorted : (now : ℕ) (ts : List ℕ) → IsSorted ts → IsSorted (recent now ts)
unfolding recent
recent-IsSorted now [] s = tt
recent-IsSorted now (t ∷ ts) s = elim (Bool-cases (ltb (t + 5000000) now)) [
  | inl old ↦ rw (recent, old) (recent-IsSorted now ts s.1)
  | inr new ↦ rw (recent, new) s
]

abbrev pub IsRecent : ℕ → ℕ → Type 0
IsRecent now t = now ≤ t + 5000000

-- The loop stops at the first time that is recent; those behind it are later.
recent-IsRecent : (now : ℕ) (ts : List ℕ) → IsSorted ts → All (IsRecent now) (recent now ts)
unfolding recent
recent-IsRecent now [] s = tt
recent-IsRecent now (t ∷ ts) s = elim (Bool-cases (ltb (t + 5000000) now)) [
  | inl old ↦ rw (recent, old) (recent-IsRecent now ts s.1)
  | inr new ↦ rw (recent, new) (ground arith, later ts (ground arith) s.0)
]
  where
    later : (us : List ℕ) → now ≤ t + 5000000 → All (λ u. t ≤ u) us → All (IsRecent now) us
    later [] h p = tt
    later (u ∷ us) h (p, ps) = (omega (arith, h, p), later us h ps)

pub window-IsWindow :
    (t0 now : ℕ) (ts : List ℕ)
    → t0 ≤ now
    → IsWindow t0 ts
    → IsWindow now (window now ts) × All (IsRecent now) (window now ts)
unfolding window
window-IsWindow t0 now ts h w =
    let v = append_time-IsWindow t0 now ts h w in
    let us = append_time now ts in
    (
      record {
        bounded = omega (arith, recent-le now us, v.bounded);
        ordered = recent-IsSorted now us v.ordered;
        past = recent-All (λ t. t ≤ now) now us v.past;
      },
      recent-IsRecent now us v.ordered,
    )

-- No quotient of `rate_of` divides by zero or by more than the five seconds.
pub rate_of-micros :
    (now : ℕ) (ts : List ℕ)
    → All (IsRecent now) ts
    → (1 ≤ (rate_of now ts).micros) × ((rate_of now ts).micros ≤ 5000000)
rate_of-micros now [] h = (omega arith, omega arith)
rate_of-micros now (t ∷ ts) h = ground arith
