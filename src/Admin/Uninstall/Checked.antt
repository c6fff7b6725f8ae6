-- ===== src/Admin/Uninstall/Checked.antt =====
-- What `unit_conflicts` of tools/admin.py has seen where it has returned.
use nanopc_t6_kvm.Base.{
  ℕ, ◌≡◌, ◌⊎◌, inl, inr, Bool, true, false, List, [], ◌∷◌, Option, if◌then◌else◌, All, ok,
  not-eq-false,
}
use nanopc_t6_kvm.Endpoint.{is_some}
use nanopc_t6_kvm.Gadget.{has_text}
use nanopc_t6_kvm.Value.{Value, Fields}
use nanopc_t6_kvm.Admin.{stat}
use nanopc_t6_kvm.Admin.Call.{World, Host, conflict, pure, look, from}
use nanopc_t6_kvm.Admin.Call.Reads.{
  Reads, Reads-bind, Reads-if, Reads-pure, Reads-look, Reads-from, reads_rules, from-ok, look-ok,
  read-ok, raise_if-ok,
}
use nanopc_t6_kvm.Admin.Checks.{no_symlink, read, some_link}
use nanopc_t6_kvm.Admin.Checks.Returned.{
  no_symlink-Reads, read-Reads, no_symlink-ok, IsFile, read-ok_lem,
}
use nanopc_t6_kvm.Admin.Uninstall.{unit_file, unit_digest, check_unit, unit_conflicts}

-- The unit's file has a digest that the manifest has for it.
abbrev pub IsNoted : Host → World → Fields → List ℕ → Type 0
IsNoted h w m name =
    (content : List ℕ) × (v : Option Value) × IsFile (stat w.nodes (unit_file name)) content
    × (unit_digest name m ≡ ok v)
    × (has_text (h.sha256 content) v ≡ true)

module _ (h : Host) where
  check_unit-Reads : (m : Fields) (name : List ℕ) → Reads (check_unit h m name)
  unfolding check_unit
  check_unit-Reads m name = search (reads_rules, read-Reads) depth 9

  check_unit-ok :
      (m : Fields) (name : List ℕ) (w : World)
      → (check_unit h m name w).1 ≡ ok tt
      → IsNoted h w m name
  unfolding check_unit
  check_unit-ok m name w e =
      let (content, got, e1) =
        read-ok (read (unit_file name)) _ w (read-Reads (unit_file name)) e in
      let (v, noted, e2) =
        read-ok (from (unit_digest name m)) _ w (Reads-from (unit_digest name m)) e1 in
      (
        content,
        v,
        read-ok_lem (unit_file name) w got,
        from-ok _ w noted,
        not-eq-false (raise_if-ok _ conflict w e2),
      )

  pub unit_conflicts-Reads : (m : Fields) (names : List (List ℕ)) → Reads (unit_conflicts h m names)
  unfolding unit_conflicts
  unit_conflicts-Reads m [] = search reads_rules
  unit_conflicts-Reads m (name ∷ names) = Reads-bind _ _ (no_symlink-Reads (unit_file name)) (λ _.
      Reads-bind _ _ (Reads-look _) (λ there.
        Reads-bind _ _ (Reads-if there _ _ (check_unit-Reads m name) (Reads-pure tt))
          (λ _. unit_conflicts-Reads m names)))

  -- A unit's file is no link, and is not there or noted.
  abbrev pub IsChecked : World → Fields → List ℕ → Type 0
  IsChecked w m name =
      (some_link w.nodes [] (unit_file name) ≡ false)
      × ((is_some (stat w.nodes (unit_file name)) ≡ false) ⊎ IsNoted h w m name)

  there-Checked :
      (m : Fields) (name : List ℕ) (w : World) (there : Bool)
      → is_some (stat w.nodes (unit_file name)) ≡ there
      → ((if there then check_unit h m name else pure tt) w).1 ≡ ok tt
      → (is_some (stat w.nodes (unit_file name)) ≡ false) ⊎ IsNoted h w m name
  there-Checked m name w true k e = inr (check_unit-ok m name w e)
  there-Checked m name w false k e = inl k

  pub unit_conflicts-ok :
      (m : Fields) (names : List (List ℕ)) (w : World)
      → (unit_conflicts h m names w).1 ≡ ok tt
      → All (IsChecked w m) names
  unfolding unit_conflicts
  unit_conflicts-ok m [] w e = tt
  unit_conflicts-ok m (name ∷ names) w e =
      let (_, direct, e1) =
        read-ok (no_symlink (unit_file name)) _ w (no_symlink-Reads (unit_file name)) e in
      let (there, seen, e2) =
        read-ok (look (λ w. is_some (stat w.nodes (unit_file name)))) _ w (Reads-look _) e1 in
      let (_, checked, e3) =
        read-ok (if there then check_unit h m name else pure tt) _ w
          (Reads-if there _ _ (check_unit-Reads m name) (Reads-pure tt)) e2 in
      (
        (
          no_symlink-ok (unit_file name) w direct,
          there-Checked m name w there
              (look-ok (λ w. is_some (stat w.nodes (unit_file name))) w seen) checked,
        ),
        unit_conflicts-ok m names w e3,
      )
