-- ===== src/Panel/Backups/Rotation.antt =====
-- What the rotation of src/t6_kvm/panel.py keeps and removes.
use nanopc_t6_kvm.Base.{
  ℕ, suc, ◌+◌, ◌-◌, ◌≤◌, ◌≡◌, inl, inr, refl, sym, ap, arith, Bool, true, not, List, [], ◌∷◌, ◌++◌,
  if◌then◌else◌, Bool-cases, length, take, drop, All, take-append-drop, length-drop, list_eq,
  list_eq_iff,
}
use nanopc_t6_kvm.Panel.Backups.{
  Entry, member, text_leb, insert, sorted, is_own, names, select, remove, outdated, rotate,
}

-- How many names pass a test.
abbrev count : (List ℕ → Bool) → List (List ℕ) → ℕ
count test [] = 0
count test (n ∷ ns) = let rest = count test ns in if test n then suc rest else rest

count-insert :
    (test : List ℕ → Bool) (n : List ℕ) (ns : List (List ℕ))
    → count test (insert n ns) ≡ count test (n ∷ ns)
count-insert test n [] = refl
count-insert test n (m ∷ ms) = elim (Bool-cases (text_leb n m)) [
  | inl le ↦ rw le refl
  | inr gt ↦ rw (gt, count-insert test n ms) (ground arith)
]

count-sorted : (test : List ℕ → Bool) (ns : List (List ℕ)) → count test (sorted ns) ≡ count test ns
count-sorted test [] = refl
count-sorted test (n ∷ ns) = rw (count-insert test n (sorted ns), count-sorted test ns) refl

count-append :
    (test : List ℕ → Bool) (ns ms : List (List ℕ))
    → count test (ns ++ ms) ≡ count test ns + count test ms
count-append test [] ms = omega arith
count-append test (n ∷ ns) ms = elim (Bool-cases (test n)) [
  | inl passes ↦ rw passes (omega (arith, count-append test ns ms))
  | inr fails ↦ rw fails (count-append test ns ms)
]

count_le : (test : List ℕ → Bool) (ns : List (List ℕ)) → count test ns ≤ length ns
count_le test [] = omega arith
count_le test (n ∷ ns) = elim (Bool-cases (test n)) [
  | inl h ↦ rw h (omega (arith, count_le test ns))
  | inr h ↦ rw h (omega (arith, count_le test ns))
]

member_self : (n : List ℕ) → list_eq n n ≡ true
member_self n = (list_eq_iff n n).1 refl

abbrev outside : List (List ℕ) → List ℕ → Bool
outside ns n = not (member ns n)

-- No name is outside a list that has all of them.
count_none :
    (big ns : List (List ℕ)) → All (λ n. member big n ≡ true) ns → count (outside big) ns ≡ 0
count_none big [] h = refl
count_none big (n ∷ ns) (h, hs) = rw (h, count_none big ns hs) refl

member-weaken :
    (m : List ℕ) (big ns : List (List ℕ))
    → All (λ n. member big n ≡ true) ns
    → All (λ n. member (m ∷ big) n ≡ true) ns
member-weaken m big [] h = tt
member-weaken m big (n ∷ ns) (h, hs) = (ground (arith, h), member-weaken m big ns hs)

members : (ns : List (List ℕ)) → All (λ n. member ns n ≡ true) ns
members [] = tt
members (n ∷ ns) = (rw (member_self n) refl, member-weaken n ns ns (members ns))

-- What is left of sorted names without the first ones.
count-outside : (k : ℕ) (ns : List (List ℕ)) → count (outside (take k ns)) ns ≤ length ns - k
count-outside k ns =
    let whole = take-append-drop k ns in
    let cut = count-append (outside (take k ns)) (take k ns) (drop k ns) in
    let none_first = count_none (take k ns) (take k ns) (members (take k ns)) in
    let rest = count_le (outside (take k ns)) (drop k ns) in
    let size = length-drop k ns in
    let c : count (outside (take k ns)) ns ≡ count (outside (take k ns)) (take k ns ++ drop k ns) =
      ap (count (outside (take k ns))) (sym whole) in
    omega (arith, cut, none_first, rest, size, c)

module _ {S : Type 0} where
  -- The panel's own snapshots among those that are left, counted by their names.
  length-remove :
      (ns : List (List ℕ)) (es : List (Entry S))
      → length (select is_own (remove ns es)) ≡ count (outside ns) (names (select is_own es))
  length-remove ns [] = refl
  length-remove ns (e ∷ es) = elim (Bool-cases (member ns e.name)) [
    | inl gone ↦ elim (Bool-cases (is_own e)) [
      | inl own ↦ rw (gone, own, gone) (length-remove ns es)
      | inr foreign ↦ rw (gone, foreign) (length-remove ns es)
    ]
    | inr kept ↦ elim (Bool-cases (is_own e)) [
      | inl own ↦ rw (kept, own, kept) (ap suc (length-remove ns es))
      | inr foreign ↦ rw (kept, foreign) (length-remove ns es)
    ]
  ]

  length-names : (es : List (Entry S)) → length (names es) ≡ length es
  length-names [] = refl
  length-names (e ∷ es) = ap suc (length-names es)

  pub length-rotate : (es : List (Entry S)) → length (select is_own (rotate es)) ≤ 2
  unfolding rotate
  length-rotate es =
      let backups = sorted (names (select is_own es)) in
      let left = length-remove (outdated es) es in
      let same = count-sorted (outside (outdated es)) (names (select is_own es)) in
      let few = count-outside (length backups - 2) backups in omega (arith, left, same, few)
