-- ===== src/Panel/Backups/Spared.antt =====
-- The rotation of src/t6_kvm/panel.py leaves the entries of others.
use nanopc_t6_kvm.Base.{
  ℕ, zero, suc, ◌-◌, ◌≤◌, ◌≡◌, ◌≢◌, inl, inr, refl, sym, ap, ◌∙◌, arith, Bool, true, false, not,
  List, [], ◌∷◌, ◌++◌, some, Bool-cases, length, take, All, list_eq,
}
use nanopc_t6_kvm.Panel.Backups.Rotation.{length-rotate}
use mathlib.Core.List.{append-nil}
use mathlib.Core.Path.{subst}
use nanopc_t6_kvm.Panel.Backups.{
  Entry, member, text_leb, insert, sorted, is_own, names, select, remove, outdated, rotate, back_up,
  snapshot_name, snapshot,
}

true-false : true ≢ false
true-false e = cc

list_eq_sym : (xs ys : List ℕ) → list_eq xs ys ≡ list_eq ys xs
list_eq_sym [] [] = refl
list_eq_sym [] (y ∷ ys) = refl
list_eq_sym (x ∷ xs) [] = refl
list_eq_sym (x ∷ xs) (y ∷ ys) = rw (list_eq_sym xs ys) (ground arith)

member-insert :
    (n : List ℕ) (ns : List (List ℕ)) (x : List ℕ) → member (insert n ns) x ≡ member (n ∷ ns) x
member-insert n [] x = refl
member-insert n (m ∷ ms) x = elim (Bool-cases (text_leb n m)) [
  | inl le ↦ rw le refl
  | inr gt ↦ rw (gt, member-insert n ms x) (ground arith)
]

member-sorted : (ns : List (List ℕ)) (x : List ℕ) → member (sorted ns) x ≡ member ns x
member-sorted [] x = refl
member-sorted (n ∷ ns) x = rw (member-insert n (sorted ns) x, member-sorted ns x) refl

member-take :
    (k : ℕ) (ns : List (List ℕ)) (x : List ℕ) → member ns x ≡ false → member (take k ns) x ≡ false
member-take zero ns x h = refl
member-take (suc k) [] x h = refl
member-take (suc k) (n ∷ ns) x h = elim (Bool-cases (list_eq n x)) [
  | inl same ↦ let q : true ≡ false = rw same at h in cc
  | inr other ↦ rw other (member-take k ns x (rw other at h))
]

module _ {S : Type 0} where
  -- No two entries have the same name.
  abbrev pub Distinct : List (Entry S) → Type 0
  Distinct [] = Unit
  Distinct (e ∷ es) = (member (names es) e.name ≡ false) × Distinct es

  -- An entry that is not the panel's own has no name among these.
  abbrev Spared : List (List ℕ) → List (Entry S) → Type 0
  Spared ns = All (λ e. is_own e ≡ false → member ns e.name ≡ false)

  remove-Spared :
      (ns : List (List ℕ)) (es : List (Entry S))
      → Spared ns es
      → select (λ e. not (is_own e)) (remove ns es) ≡ select (λ e. not (is_own e)) es
  remove-Spared ns [] h = refl
  remove-Spared ns (e ∷ es) (h, hs) = elim (Bool-cases (is_own e)) [
    | inl own ↦ elim (Bool-cases (member ns e.name)) [
      | inl gone ↦ rw (own, gone) (remove-Spared ns es hs)
      | inr kept ↦ rw (own, kept, own) (remove-Spared ns es hs)
    ]
    | inr foreign ↦ rw (h foreign, foreign) (ap (λ t. e ∷ t) (remove-Spared ns es hs))
  ]

  names-select :
      (test : Entry S → Bool) (es : List (Entry S)) (x : List ℕ)
      → member (names es) x ≡ false
      → member (names (select test es)) x ≡ false
  names-select test [] x h = refl
  names-select test (e ∷ es) x h = elim (Bool-cases (list_eq e.name x)) [
    | inl same ↦ let q : true ≡ false = rw same at h in cc
    | inr other ↦ elim (Bool-cases (test e)) [
      | inl passes ↦ rw (passes, other) (names-select test es x (rw other at h))
      | inr fails ↦ rw fails (names-select test es x (rw other at h))
    ]
  ]

  Spared-cons :
      (m : List ℕ) (ns : List (List ℕ)) (es : List (Entry S))
      → member (names es) m ≡ false
      → Spared ns es
      → Spared (m ∷ ns) es
  Spared-cons m ns [] d h = tt
  Spared-cons m ns (e ∷ es) d (h, hs) = elim (Bool-cases (list_eq e.name m)) [
    | inl same ↦ let q : true ≡ false = rw same at d in absurd (true-false q)
    | inr other ↦ (
      λ foreign. rw (list_eq_sym m e.name, other) (h foreign),
      Spared-cons m ns es (rw other at d) hs,
    )
  ]

  names-own :
      (e : Entry S) (es : List (Entry S))
      → is_own e ≡ true
      → names (select is_own (e ∷ es)) ≡ e.name ∷ names (select is_own es)
  names-own e es own = rw own refl

  names-foreign :
      (e : Entry S) (es : List (Entry S))
      → is_own e ≡ false
      → names (select is_own (e ∷ es)) ≡ names (select is_own es)
  names-foreign e es foreign = rw foreign refl

  own_Spared : (es : List (Entry S)) → Distinct es → Spared (names (select is_own es)) es
  own_Spared [] d = tt
  own_Spared (e ∷ es) (d, ds) = elim (Bool-cases (is_own e)) [
    | inl own ↦
        subst (λ ns. Spared ns (e ∷ es)) (sym (names-own e es own))
          (
            λ foreign. absurd (true-false (sym own ∙ foreign)),
            Spared-cons e.name (names (select is_own es)) es d (own_Spared es ds),
          )
    | inr foreign ↦
        subst (λ ns. Spared ns (e ∷ es)) (sym (names-foreign e es foreign))
          (λ _. names-select is_own es e.name d, own_Spared es ds)
  ]

  Spared-map :
      (ns ms : List (List ℕ)) (es : List (Entry S))
      → ((x : List ℕ) → member ns x ≡ false → member ms x ≡ false)
      → Spared ns es
      → Spared ms es
  Spared-map ns ms [] f h = tt
  Spared-map ns ms (e ∷ es) f (h, hs) = (λ foreign. f e.name (h foreign), Spared-map ns ms es f hs)

  -- Entries that are not the panel's own are left as they are.
  pub rotate_foreign :
      (es : List (Entry S))
      → Distinct es
      → select (λ e. not (is_own e)) (rotate es) ≡ select (λ e. not (is_own e)) es
  unfolding rotate
  rotate_foreign es d =
      let own = names (select is_own es) in
      remove-Spared (outdated es) es (
        Spared-map own (outdated es) es
          (λ x h. member-take (length (sorted own) - 2) (sorted own) x (member-sorted own x ∙ h))
          (own_Spared es d))

  names-append :
      (es : List (Entry S)) (e : Entry S) (x : List ℕ)
      → member (names es) x ≡ false
      → list_eq e.name x ≡ false
      → member (names (es ++ (e ∷ []))) x ≡ false
  names-append [] e x h k = rw k refl
  names-append (f ∷ es) e x h k = elim (Bool-cases (list_eq f.name x)) [
    | inl same ↦ let q : true ≡ false = rw same at h in absurd (true-false q)
    | inr other ↦ rw other (names-append es e x (rw other at h) k)
  ]

  Distinct-append :
      (es : List (Entry S)) (e : Entry S)
      → Distinct es
      → member (names es) e.name ≡ false
      → Distinct (es ++ (e ∷ []))
  Distinct-append [] e d h = (refl, tt)
  Distinct-append (f ∷ es) e (d, ds) h = elim (Bool-cases (list_eq f.name e.name)) [
    | inl same ↦ let q : true ≡ false = rw same at h in absurd (true-false q)
    | inr other ↦ (
      names-append es e f.name d (list_eq_sym e.name f.name ∙ other),
      Distinct-append es e ds (rw other at h),
    )
  ]

  Distinct-select :
      (test : Entry S → Bool) (es : List (Entry S)) → Distinct es → Distinct (select test es)
  Distinct-select test [] d = tt
  Distinct-select test (e ∷ es) (d, ds) = elim (Bool-cases (test e)) [
    | inl passes ↦ rw passes (names-select test es e.name d, Distinct-select test es ds)
    | inr fails ↦ rw fails (Distinct-select test es ds)
  ]

  select-append :
      (test : Entry S → Bool) (es fs : List (Entry S))
      → select test (es ++ fs) ≡ select test es ++ select test fs
  select-append test [] fs = refl
  select-append test (e ∷ es) fs = elim (Bool-cases (test e)) [
    | inl passes ↦ rw passes (ap (λ t. e ∷ t) (select-append test es fs))
    | inr fails ↦ rw fails (select-append test es fs)
  ]

  foreign-snapshot :
      (now : ℕ) (s : S) (es : List (Entry S))
      → select (λ e. not (is_own e)) (es ++ (snapshot now s ∷ [])) ≡ select (λ e. not (is_own e)) es
  foreign-snapshot now s es =
      select-append (λ e. not (is_own e)) es (snapshot now s ∷ [])
      ∙ append-nil (select (λ e. not (is_own e)) es)

  -- At most two snapshots of the panel are left, and everything else in the directory.
  pub back_up_lem :
      (now : ℕ) (s : S) (es : List (Entry S)) {es' : List (Entry S)}
      → Distinct es
      → back_up now s es ≡ some es'
      → (length (select is_own es') ≤ 2)
        × (select (λ e. not (is_own e)) es' ≡ select (λ e. not (is_own e)) es)
        × Distinct es'
  unfolding back_up rotate
  back_up_lem now s es {es'} d h = elim (Bool-cases (member (names es) (snapshot_name now))) [
    | inl there ↦ let q = rw there at h in cc
    | inr free ↦
        let all = es ++ (snapshot now s ∷ []) in
        let ds : Distinct all = Distinct-append es (snapshot now s) d free in
        let q : rotate all ≡ es' = let p = rw free at h in cc in
        subst
          (λ t.
            (length (select is_own t) ≤ 2)
            × (select (λ e. not (is_own e)) t ≡ select (λ e. not (is_own e)) es)
            × Distinct t)
          q
          (
            length-rotate all,
            rotate_foreign all ds ∙ foreign-snapshot now s es,
            Distinct-select (λ e. not (member (outdated all) e.name)) all ds,
          )
  ]
