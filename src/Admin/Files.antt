-- ===== src/Admin/Files.antt =====
-- What the changes of tools/admin.py do to a file system.
use nanopc_t6_kvm.Base.{
  ◌≡◌, ◌↔◌, inl, inr, refl, sym, ◌∙◌, arith, true, false, [], ◌∷◌, none, some, if◌then◌else◌,
  Bool-cases, list_eq_iff,
}
use nanopc_t6_kvm.Admin.{Location, same, Node, Nodes, node_at, delete, put}

pub same_iff : (k l : Location) → (same k l ≡ true) ↔ (k ≡ l)
same_iff [] [] = (λ _. refl, λ _. refl)
same_iff [] (m ∷ ms) = (λ e. cc, λ e. cc)
same_iff (n ∷ ns) [] = (λ e. cc, λ e. cc)
same_iff (n ∷ ns) (m ∷ ms) = ground (arith, list_eq_iff n m, same_iff ns ms)

pub same_refl : (l : Location) → same l l ≡ true
same_refl l = (same_iff l l).1 refl

pub same_sym : (k l : Location) → same k l ≡ same l k
same_sym k l = elim (Bool-cases (same k l)) [
  | inl e ↦ rw (e, (same_iff k l).0 e, same_refl l) refl
  | inr d ↦ elim (Bool-cases (same l k)) [
    | inl e ↦ let q : true ≡ false = rw ((same_iff l k).0 e, same_refl k) at d in cc
    | inr e ↦ d ∙ sym e
  ]
]

pub node_at-delete :
    (l k : Location) (ns : Nodes)
    → node_at k (delete l ns) ≡ (if same l k then none else node_at k ns)
node_at-delete l k [] = elim (Bool-cases (same l k)) [ inl e ↦ rw e refl | inr e ↦ rw e refl ]
node_at-delete l k ((j, n) ∷ ns) = elim (Bool-cases (same j l)) [
  | inl gone ↦ elim (Bool-cases (same l k)) [
    | inl here ↦ rw (gone, node_at-delete l k ns, here) refl
    | inr other ↦ rw (gone, node_at-delete l k ns, other, (same_iff j l).0 gone, other) refl
  ]
  | inr kept ↦ elim (Bool-cases (same j k)) [
    | inl here ↦
        let away : same l k ≡ false = same_sym l k ∙ rw ((same_iff j k).0 here) at kept in
        rw (kept, here, away) refl
    | inr other ↦ rw (kept, other) (node_at-delete l k ns)
  ]
]

pub node_at-put :
    (l k : Location) (n : Node) (ns : Nodes)
    → node_at k (put l n ns) ≡ (if same l k then some n else node_at k ns)
node_at-put l k n ns = elim (Bool-cases (same l k)) [
  | inl e ↦ rw e refl
  | inr d ↦ rw (d, node_at-delete l k ns, d) refl
]
