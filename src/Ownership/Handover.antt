-- ===== src/Ownership/Handover.antt =====
-- How control passes from one session to the next (src/t6_kvm/ownership.py).
use nanopc_t6_kvm.Base.{
  ℕ, ◌≡◌, ◌≢◌, ◌⊎◌, inl, inr, refl, ap, ◌∙◌, arith, true, false, Option, none, some, ◌==◌, ==_iff,
  Bool-cases, contains,
}
use nanopc_t6_kvm.Ownership.{
  Policy, takeover, reject, Waiting, Control, admit, resume, give_up, release, Outcome, returned,
  waits, Step, wake,
}

-- What `admit` has done to an owner `previous` under the policy `takeover`.
record Challenged (s : Control) (previous candidate : ℕ) (r : Control × Outcome) : Type 0 where
  waiting : r.1 ≡ waits
  owner : r.0.owner ≡ some previous
  cancelled : contains previous r.0.cancelled ≡ true
  lock : r.0.lock ≡ some (record { previous = previous; candidate = candidate })

admit-Challenged :
    (s : Control) (previous candidate : ℕ)
    → s.policy ≡ takeover
    → s.owner ≡ some previous
    → previous ≢ candidate
    → Challenged s previous candidate (admit s candidate true)
unfolding admit
admit-Challenged s previous candidate p o ne =
    let other : (previous == candidate) ≡ false = ground arith in
    rw o (
      rw other
        (rw p (record { waiting = refl; owner = refl; cancelled = ground arith; lock = refl })))

-- Under the policy `takeover` an authenticated candidate cancels the owner and waits with the lock
-- held, the owner unchanged. When the old session's cleanup has released its lease, the call can go
-- on, and then the candidate is the owner, its call returns True and the lock is free.
pub hand_over :
    (s : Control) (previous candidate : ℕ)
    → s.policy ≡ takeover
    → s.owner ≡ some previous
    → previous ≢ candidate
    → let (t, outcome) = admit s candidate true in
      let released = release t previous in
      (outcome ≡ waits)
      × (t.owner ≡ some previous)
      × (contains previous t.cancelled ≡ true)
      × ((w : Waiting) × (t.lock ≡ some w)
          × Step released (resume released w).0
          × ((resume released w).0.owner ≡ some candidate)
          × ((resume released w).0.lock ≡ none)
          × ((resume released w).1 ≡ returned true))
hand_over s previous candidate p o ne =
    let c = admit-Challenged s previous candidate p o ne in
    let w : Waiting = record { previous = previous; candidate = candidate } in
    let t = (admit s candidate true).0 in
    (
      c.waiting,
      c.owner,
      c.cancelled,
      (
        w,
        c.lock,
        wake w (unfold release in c.lock) (unfold release in ground arith),
        unfold resume in refl,
        unfold resume in refl,
        unfold resume in refl,
      ),
    )

-- The owner, the closed leases and the admitted ones as they were, and the answer False.
abbrev pub SameOwner : Control → Control × Outcome → Type 0
SameOwner s (t, outcome) =
    (outcome ≡ returned false)
    × (t.owner ≡ s.owner)
    × (t.closed ≡ s.closed)
    × (t.admitted ≡ s.admitted)
    × (t.cancelled ≡ s.cancelled)

-- A candidate has been refused, unless nobody else is the owner or the policy is `takeover`.
abbrev pub IsRefused : Control → ℕ → Type 0
IsRefused s candidate =
    (s.policy ≡ takeover)
    ⊎ ((s.owner ≡ none) ⊎ ((s.owner ≡ some candidate) ⊎ SameOwner s (admit s candidate true)))

rejected : (s : Control) (candidate : ℕ) → IsRefused s candidate
unfolding admit
rejected s candidate = on_policy s.policy refl s.owner refl
  where
    refused :
        (previous : ℕ)
        → s.policy ≡ reject
        → s.owner ≡ some previous
        → (previous == candidate) ≡ false
        → SameOwner s (admit s candidate true)
    refused previous p o other = rw o (rw other (rw p (refl, refl, refl, refl, refl)))

    on_owner : s.policy ≡ reject → (o : Option ℕ) → s.owner ≡ o → IsRefused s candidate
    on_owner p none o = inr (inl o)
    on_owner p (some previous) o = elim (Bool-cases (previous == candidate)) [
      | inl same ↦ inr (inr (inl (o ∙ ap some ((==_iff previous candidate).0 same))))
      | inr other ↦ inr (inr (inr (refused previous p o other)))
    ]

    on_policy : (p : Policy) → s.policy ≡ p → (o : Option ℕ) → s.owner ≡ o → IsRefused s candidate
    on_policy takeover p o k = inl p
    on_policy reject p o k = on_owner p o k

-- In any state, also without an owner, a call that is not authenticated and one that times out leave the
-- owner, the closed, the admitted and the cancelled leases as they were and return False; so does an
-- authenticated call under the policy `reject` where another lease is the owner.
pub refusals :
    (s : Control) (candidate : ℕ)
    → SameOwner s (admit s candidate false) × SameOwner s (give_up s) × IsRefused s candidate
unfolding admit give_up
refusals s candidate =
    ((refl, refl, refl, refl, refl), (refl, refl, refl, refl, refl), rejected s candidate)

-- The cleanup of an old session cannot take control from a newer one: `release` of a lease that is not
-- the owner leaves the owner, and `release` of the owner leaves none.
release_owner :
    (s : Control) (owner lease : ℕ)
    → s.owner ≡ some owner
    → ((lease ≢ owner) → (release s lease).owner ≡ some owner) × ((release s owner).owner ≡ none)
unfolding release
release_owner s owner lease o = (λ ne. rw o (ground arith), rw o (ground arith))
