-- ===== src/Admin/Stage/Checked.antt =====
-- What `check_stage` of tools/admin.py has seen where it has returned.
use nanopc_t6_kvm.Base.{
  ℕ, ◌≡◌, inl, inr, ap, ◌∙◌, Bool, true, false, not, List, ◌++◌, Option, none, some, if◌then◌else◌,
  Bool-cases, ok, ok-injective, not-eq-false,
}
use mathlib.Core.Path.{subst}
use nanopc_t6_kvm.Gadget.{has_text}
use nanopc_t6_kvm.Broker.{codes}
use nanopc_t6_kvm.Admin.{Location, Nodes, node_at, resolve, stat}
use nanopc_t6_kvm.Endpoint.{is_some}
use nanopc_t6_kvm.Value.{Value, Fields, end, field}
use nanopc_t6_kvm.Admin.Call.{World, Host, bad_stage, pure, look, from, raise_if}
use nanopc_t6_kvm.Admin.Call.Reads.{
  Reads, Reads-bind, Reads-look, Reads-raise_if, Reads-from, reads_rules, read-ok, raise_if-ok,
  look-ok, from-ok,
}
use nanopc_t6_kvm.Admin.Checks.Returned.{test_rules}
use nanopc_t6_kvm.Admin.Checks.{below, read, read_object}
use nanopc_t6_kvm.Admin.Checks.Returned.{read-Reads, read_object-Reads, IsFile, read-ok_lem}
use nanopc_t6_kvm.Admin.Stage.{
  listed, is_bad_entry, entries, all_good, all_files, needed, is_approved, found_at, check_sum,
  check_sums, check_stage,
}

module _ (h : Host) where
  check_sum-Reads : (root : Location) (rel : List ℕ) (v : Value) → Reads (check_sum h root rel v)
  unfolding check_sum
  check_sum-Reads root rel v = search test_rules depth 12

  check_sums-Reads : (root : Location) (sums : Fields) → Reads (check_sums h root sums)
  unfolding check_sums
  check_sums-Reads root end = search reads_rules
  check_sums-Reads root (field rel v sums) =
      Reads-bind _ _ (check_sum-Reads root rel v) (λ _. check_sums-Reads root sums)

  pub check_stage-Reads : (absolute : Bool) (l : Location) → Reads (check_stage h absolute l)
  unfolding check_stage
  check_stage-Reads absolute l = search (test_rules, check_sums-Reads) depth 20

-- The entry stays in the stage, and its file has the digest.
abbrev pub IsListed : Host → Nodes → Location → List ℕ → Value → Type 0
IsListed h ns root rel v =
    (is_bad_entry ns root rel ≡ false)
    × ((content : List ℕ) × IsFile (stat ns (listed root rel)) content
        × (has_text (h.sha256 content) (some v) ≡ true))

abbrev pub AllListed : Host → Nodes → Location → Fields → Type 0
AllListed h ns root end = Unit
AllListed h ns root (field rel v sums) = IsListed h ns root rel v × AllListed h ns root sums

module _ (h : Host) where
  check_sum-ok :
      (root : Location) (rel : List ℕ) (v : Value) (w : World)
      → (check_sum h root rel v w).1 ≡ ok tt
      → IsListed h w.nodes root rel v
  unfolding check_sum
  check_sum-ok root rel v w e =
      let (bad, seen, e1) =
        read-ok (look (λ w. is_bad_entry w.nodes root rel)) _ w (Reads-look _) e in
      let (_, good, e2) = read-ok (raise_if bad bad_stage) _ w (Reads-raise_if _ _) e1 in
      let (content, got, e3) = read-ok (read (listed root rel)) _ w (read-Reads _) e2 in
      (
        look-ok (λ w. is_bad_entry w.nodes root rel) w seen ∙ raise_if-ok bad bad_stage w good,
        (content, read-ok_lem (listed root rel) w got, not-eq-false (raise_if-ok _ bad_stage w e3)),
      )

  check_sums-ok :
      (root : Location) (sums : Fields) (w : World)
      → (check_sums h root sums w).1 ≡ ok tt
      → AllListed h w.nodes root sums
  unfolding check_sums
  check_sums-ok root end w e = tt
  check_sums-ok root (field rel v sums) w e =
      let (_, one, rest) = read-ok (check_sum h root rel v) _ w (check_sum-Reads h root rel v) e in
      (check_sum-ok root rel v w one, check_sums-ok root sums w rest)

-- A stage: the release was built of the approved commit, the files of the list of digests are in it with their
-- digests, it has no other files, no link out of it and nothing special, and what is needed is there.
abbrev pub IsStage : Host → World → Location → Type 0
IsStage h w root =
    (r : Fields) × (sums : Fields) × ((read_object h (below root (codes "release.json")) w).1
      ≡ ok r)
    × (is_approved r ≡ true)
    × ((read_object h (below root (codes "stage-sha256.json")) w).1 ≡ ok sums)
    × AllListed h w.nodes root sums
    × (all_good w.nodes root sums (entries root w.nodes) ≡ true)
    × (all_files w.nodes root needed ≡ true)

-- The root is what the argument resolves to.
abbrev pub IsRoot : Host → World → Bool → Location → Location → Type 0
IsRoot h w absolute l root = resolve w.nodes (if absolute then l else h.cwd ++ l) ≡ some root

found_at-ok :
    (ns : Nodes) (found : Option Location) {k : Location}
    → found_at ns found ≡ ok k
    → found ≡ some k
found_at-ok ns none e = cc
found_at-ok ns (some l) {k} e = elim (Bool-cases (is_some (node_at l ns))) [
  | inl there ↦ let q : l ≡ k = ok-injective (rw there at e) in ap some q
  | inr missing ↦ let q = rw missing at e in cc
]

module _ (h : Host) where
  pub check_stage-IsStage :
      (absolute : Bool) (l : Location) (w : World) {root : Location}
      → (check_stage h absolute l w).1 ≡ ok root
      → IsRoot h w absolute l root × IsStage h w root
  unfolding check_stage pure
  check_stage-IsStage absolute l w {root} e =
      let place =
        λ (w : World). found_at w.nodes (resolve w.nodes (if absolute then l else h.cwd ++ l)) in
      let (found, sought, e1) = read-ok (look place) _ w (Reads-look _) e in
      let (k, at_k, e2) = read-ok (from found) _ w (Reads-from _) e1 in
      let (r, got_r, e3) =
        read-ok (read_object h (below k (codes "release.json"))) _ w (read_object-Reads h _) e2 in
      let (_, approved, e4) =
        read-ok (raise_if (not (is_approved r)) bad_stage) _ w (Reads-raise_if _ _) e3 in
      let (sums, got_s, e5) =
        read-ok (read_object h (below k (codes "stage-sha256.json"))) _ w (read_object-Reads h _)
          e4 in
      let (_, listed_all, e6) = read-ok (check_sums h k sums) _ w (check_sums-Reads h k sums) e5 in
      let (good, seen, e7) =
        read-ok (look (λ w. all_good w.nodes k sums (entries k w.nodes))) _ w (Reads-look _) e6 in
      let (_, passed, e8) = read-ok (raise_if (not good) bad_stage) _ w (Reads-raise_if _ _) e7 in
      let (complete, seen', e9) =
        read-ok (look (λ w. all_files w.nodes k needed)) _ w (Reads-look _) e8 in
      let (_, passed', e10) =
        read-ok (raise_if (not complete) bad_stage) (λ _. pure k) w (Reads-raise_if _ _) e9 in
      subst (λ root. IsRoot h w absolute l root × IsStage h w root) (ok-injective e10)
        (
          found_at-ok w.nodes _ (look-ok place w sought ∙ from-ok found w at_k),
          (
            r,
            sums,
            got_r,
            not-eq-false (raise_if-ok _ bad_stage w approved),
            got_s,
            check_sums-ok h k sums w listed_all,
            look-ok (λ w. all_good w.nodes k sums (entries k w.nodes)) w seen
                ∙ not-eq-false (raise_if-ok _ bad_stage w passed),
            look-ok (λ w. all_files w.nodes k needed) w seen'
                ∙ not-eq-false (raise_if-ok _ bad_stage w passed'),
          ),
        )
