-- ===== src/Ownership/Exclusive.antt =====
-- Two sessions never control the machine at once (src/t6_kvm/ownership.py).
use nanopc_t6_kvm.Base.{
  ℕ, ◌≡◌, ◌⊎◌, inl, inr, refl, sym, ap, ◌∙◌, arith, Bool, true, false, ◌||◌, Option, none, some,
  ◌==◌, Bool-cases, contains,
}
use nanopc_t6_kvm.Ownership.{
  Policy, takeover, reject, Waiting, Control, start, challenge, admit_locked, admit, resume,
  give_up, without, release, Step, begin, wake, timeout, finish, Reach, here, next,
}

-- A lease is active from the return of `admit` until its session is closed.
pub record IsActive (s : Control) (lease : ℕ) : Type 0 where
  pub admitted : contains lease s.admitted ≡ true
  pub open_still : contains lease s.closed ≡ false

-- Each active lease is the owner, and a call that waits for the lease `previous` to close finds no
-- other owner when it goes on.
pub record IsExclusive (s : Control) : Type 0 where
  pub active : (lease : ℕ) → IsActive s lease → s.owner ≡ some lease
  pub waiting : (w : Waiting) → s.lock ≡ some w → (s.owner ≡ some w.previous) ⊎ (s.owner ≡ none)

start-IsExclusive : (policy : Policy) → IsExclusive (start policy)
start-IsExclusive policy = record {
  active = λ lease a. absurd (ground (arith, a.admitted));
  waiting = λ w e. absurd (ground (arith, e));
}

-- Of the leases that are active once `c` is admitted, each but `c` was so before.
admitted-cases :
    (s : Control) (c lease : ℕ)
    → (lease == c) || contains lease s.admitted ≡ true
    → contains lease s.closed ≡ false
    → (lease ≡ c) ⊎ IsActive s lease
admitted-cases s c lease h still = elim (Bool-cases (lease == c)) [
  | inl e ↦ inl (ground arith)
  | inr e ↦ inr (record { admitted = ground arith; open_still = still })
]

challenge-IsExclusive :
    (policy : Policy) (s : Control) (p c : ℕ)
    → s.owner ≡ some p
    → IsExclusive s
    → IsExclusive (challenge policy s p c).0
challenge-IsExclusive reject s p c o v = v
challenge-IsExclusive takeover s p c o v = record {
  active = λ lease a. v.active lease (record { admitted = a.admitted; open_still = a.open_still });
  waiting = λ w e. inl (ground (arith, o, e));
}

admit_locked-IsExclusive :
    (o : Option ℕ) (s : Control) (c : ℕ)
    → s.owner ≡ o
    → s.lock ≡ none
    → IsExclusive s
    → IsExclusive (admit_locked o s c).0
admit_locked-IsExclusive none s c o free v = record {
  active = λ lease a. elim (admitted-cases s c lease a.admitted a.open_still) [
    | inl e ↦ ap some (sym e)
    | inr old ↦ absurd (ground (arith, o, v.active lease old))
  ];
  waiting = λ w e. absurd (ground (arith, e, free));
}
admit_locked-IsExclusive (some p) s c o free v = elim (Bool-cases (p == c)) [
  | inl same ↦ rw same (record {
    active = λ lease a. elim (admitted-cases s c lease a.admitted a.open_still) [
      | inl e ↦ ground (arith, o)
      | inr old ↦ v.active lease old
    ];
    waiting = v.waiting;
  })
  | inr other ↦ rw other (challenge-IsExclusive s.policy s p c o v)
]

admit-IsExclusive :
    (s : Control) (c : ℕ) (auth : Bool)
    → s.lock ≡ none
    → IsExclusive s
    → IsExclusive (admit s c auth).0
unfolding admit
admit-IsExclusive s c false free v = v
admit-IsExclusive s c true free v = admit_locked-IsExclusive s.owner s c refl free v

-- Whoever is active while a call waits is the lease that it waits for.
waited_for :
    (s : Control) (w : Waiting) (lease : ℕ)
    → s.lock ≡ some w
    → IsExclusive s
    → IsActive s lease
    → lease ≡ w.previous
waited_for s w lease held v a = ground (arith, v.active lease a, v.waiting w held)

resume-IsExclusive :
    (s : Control) (w : Waiting)
    → s.lock ≡ some w
    → contains w.previous s.closed ≡ true
    → IsExclusive s
    → IsExclusive (resume s w).0
unfolding resume
resume-IsExclusive s w held closed v = record {
  active = λ lease a. elim (admitted-cases s w.candidate lease a.admitted a.open_still) [
    | inl e ↦ ap some (sym e)
    | inr old ↦
        let e = waited_for s w lease held v old in
        absurd (ground (arith, rw (← e) at closed, a.open_still))
  ];
  waiting = λ w' e. absurd (ground (arith, e));
}

give_up-IsExclusive : (s : Control) → IsExclusive s → IsExclusive (give_up s).0
unfolding give_up
give_up-IsExclusive s v = record {
  active = λ lease a. v.active lease (record { admitted = a.admitted; open_still = a.open_still });
  waiting = λ w e. absurd (ground (arith, e));
}

without-cases :
    (o : Option ℕ) (lease p : ℕ)
    → (o ≡ some p) ⊎ (o ≡ none)
    → (without o lease ≡ some p) ⊎ (without o lease ≡ none)
without-cases none lease p h = inr refl
without-cases (some q) lease p h = ground arith

release-IsExclusive : (s : Control) (lease : ℕ) → IsExclusive s → IsExclusive (release s lease)
unfolding release
release-IsExclusive s lease v = record {
  active = λ l a. ground (
    arith,
    v.active l (record { admitted = a.admitted; open_still = ground (arith, a.open_still) }),
    a.open_still,
  );
  waiting = λ w e. without-cases s.owner lease w.previous (v.waiting w e);
}

Step-IsExclusive : {s t : Control} → Step s t → IsExclusive s → IsExclusive t
Step-IsExclusive {s} (begin c auth free) v = admit-IsExclusive s c auth free v
Step-IsExclusive {s} (wake w held closed) v = resume-IsExclusive s w held closed v
Step-IsExclusive {s} (timeout w held) v = give_up-IsExclusive s v
Step-IsExclusive {s} (finish lease) v = release-IsExclusive s lease v

Reach-IsExclusive : {s t : Control} → IsExclusive s → Reach s t → IsExclusive t
Reach-IsExclusive v here = v
Reach-IsExclusive v (next r st) = Step-IsExclusive st (Reach-IsExclusive v r)

-- Under either policy and any interleaving of admissions, wake-ups, timeouts and releases, at most one
-- lease is active: two that were admitted and are both open still are the same.
pub one_controller :
    (policy : Policy) (s : Control) (l m : ℕ)
    → Reach (start policy) s
    → IsActive s l
    → IsActive s m
    → l ≡ m
one_controller policy s l m r a b =
    let v = Reach-IsExclusive (start-IsExclusive policy) r in
    let same : ◌≡◌ {A = Option ℕ} (some l) (some m) = sym (v.active l a) ∙ v.active m b in cc
