-- ===== src/Ownership.antt =====
-- src/t6_kvm/ownership.py: which session controls the machine. A lease is known by a number, as the
-- source compares leases by identity.
pub mod Exclusive
pub mod Handover
pub mod Hid
use nanopc_t6_kvm.Base.{
  ℕ, ◌≡◌, Bool, true, false, not, List, [], ◌∷◌, Option, none, some, ◌==◌, if◌then◌else◌, contains,
}

pub data Policy : Type 0 where
  takeover reject : Policy

-- A call of `admit` that holds the lock and waits until `previous` is closed.
pub record Waiting : Type 0 where
  pub previous : ℕ
  pub candidate : ℕ

-- An `Owner` with its leases: `closed` and `cancelled` are the leases whose event `closed` was set
-- and whose `cancel` was called, `lock` is the call that holds `self.lock` across its wait, and
-- `admitted` the leases to which `admit` has returned True.
pub record Control : Type 0 where
  pub policy : Policy
  pub owner : Option ℕ
  pub lock : Option Waiting
  pub closed : List ℕ
  pub cancelled : List ℕ
  pub admitted : List ℕ

abbrev pub start : Policy → Control
start policy = record {
  policy = policy;
  owner = none;
  lock = none;
  closed = [];
  cancelled = [];
  admitted = [];
}

-- How a stretch of `admit` ended: it returned, or it waits with the lock held.
pub data Outcome : Type 0 where
  returned : Bool → Outcome
  waits : Outcome

abbrev pub grant : Control → ℕ → Control × Outcome
grant s candidate =
    (record s { owner = some candidate; admitted = candidate ∷ s.admitted }, returned true)

abbrev pub challenge : Policy → Control → ℕ → ℕ → Control × Outcome
challenge reject s previous candidate = (s, returned false)
challenge takeover s previous candidate = (
  record s {
    lock = some (record { previous = previous; candidate = candidate });
    cancelled = previous ∷ s.cancelled;
  },
  waits,
)

abbrev pub admit_locked : Option ℕ → Control → ℕ → Control × Outcome
admit_locked none s candidate = grant s candidate
admit_locked (some previous) s candidate =
    if previous == candidate
    then (record s { admitted = candidate ∷ s.admitted }, returned true)
    else challenge s.policy s previous candidate

-- `admit` up to its return or its wait, from a moment at which the lock is free.
unfoldable pub admit : Control → ℕ → Bool → Control × Outcome
admit s candidate authenticated =
    if not authenticated then (s, returned false) else admit_locked s.owner s candidate

-- `admit` behind the wait: `previous.closed` was set, so the candidate becomes the owner.
unfoldable pub resume : Control → Waiting → Control × Outcome
resume s w = grant (record s { lock = none }) w.candidate

-- `admit` behind a TimeoutError.
unfoldable pub give_up : Control → Control × Outcome
give_up s = (record s { lock = none }, returned false)

abbrev pub without : Option ℕ → ℕ → Option ℕ
without none lease = none
without (some o) lease = if o == lease then none else some o

-- `release` takes no lock.
unfoldable pub release : Control → ℕ → Control
release s lease = record s { owner = without s.owner lease; closed = lease ∷ s.closed }

-- One uninterrupted stretch of any task.
pub data Step (s : Control) : Control → Type 0 where
  begin :
      (candidate : ℕ) (authenticated : Bool)
      → s.lock ≡ none
      → Step s (admit s candidate authenticated).0
  wake :
      (w : Waiting) → s.lock ≡ some w → contains w.previous s.closed ≡ true → Step s (resume s w).0
  timeout : (w : Waiting) → s.lock ≡ some w → Step s (give_up s).0
  finish : (lease : ℕ) → Step s (release s lease)

pub data Reach (s : Control) : Control → Type 0 where
  here : Reach s s
  next : {t u : Control} → Reach s t → Step t u → Reach s u
