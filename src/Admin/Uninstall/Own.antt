-- ===== src/Admin/Uninstall/Own.antt =====
-- What `uninstall` of tools/admin.py removes is its own.
use nanopc_t6_kvm.Base.{
  ℕ, ◌≡◌, ◌⊎◌, inl, inr, refl, sym, ap, ◌∙◌, Bool, true, false, ◌&&◌, ◌||◌, List, [], ◌∷◌, Option,
  none, some, if◌then◌else◌, Bool-cases, All, list_eq, list_eq_iff, ok,
}
use mathlib.Core.Path.{subst}
use nanopc_t6_kvm.Endpoint.{is_some}
use nanopc_t6_kvm.Value.{Fields}
use nanopc_t6_kvm.Admin.{Location, same, Node, node_at}
use nanopc_t6_kvm.Admin.Files.{same_iff}
use nanopc_t6_kvm.Admin.Call.{World, Host, pure}
use nanopc_t6_kvm.Admin.Call.Reads.{reads-cases}
use nanopc_t6_kvm.Admin.Call.Removes.{Left}
use nanopc_t6_kvm.Admin.Checks.{read_manifest, units}
use nanopc_t6_kvm.Admin.Checks.Returned.{read_manifest-Reads, stat-plain}
use nanopc_t6_kvm.Admin.Release.{current}
use nanopc_t6_kvm.Admin.Uninstall.{unit_file, to_release, unit_conflicts, take_down, uninstall}
use nanopc_t6_kvm.Admin.Uninstall.Checked.{
  IsNoted, IsChecked, unit_conflicts-Reads, unit_conflicts-ok,
}
use nanopc_t6_kvm.Admin.Uninstall.Safe.{
  or_right, unit_at, wanted_at, gone_at, own_at, remove_units-Left, take_down-Left,
}
use nanopc_t6_kvm.Admin.Checks.Returned.{NoDots}
use nanopc_t6_kvm.Panel.Backups.{member}

-- A unit's file with the digest that install.json has for it, a link that `systemctl disable` removes for a
-- unit, or the link that leads to a release, where the units' files and links may be gone.
abbrev pub IsOwn : Host → World → Location → Type 0
IsOwn h w l =
    ((m : Fields) × (name : List ℕ) × ((read_manifest h w).1 ≡ ok m)
      × (member units name ≡ true)
      × (l ≡ unit_file name)
      × IsNoted h w m name)
    ⊎ (wanted_at h units l ≡ true)
    ⊎ ((l ≡ current) × (u : World) × Left (gone_at h units) w u × (to_release u.nodes ≡ true))

-- It is as it was, or its own and gone.
abbrev pub IsKept : Host → World → World → Location → Type 0
IsKept h w v l =
    (node_at l v.nodes ≡ node_at l w.nodes) ⊎ (IsOwn h w l × (node_at l v.nodes ≡ none))

is_none : {n : Option Node} → is_some n ≡ false → n ≡ none
is_none {n = none} e = refl
is_none {n = some n} e = cc

-- A unit's file that is there was noted.
found :
    (h : Host) (m : Fields) (w : World) (names : List (List ℕ)) (l : Location)
    → All (λ name. NoDots (unit_file name)) names
    → All (IsChecked h w m) names
    → unit_at names l ≡ true
    → (node_at l w.nodes ≡ none)
      ⊎ ((name : List ℕ) × (member names name ≡ true) × (l ≡ unit_file name) × IsNoted h w m name)
found h m w [] l d checked mine = cc
found h m w (name ∷ names) l (d, ds) ((direct, seen), checked) mine =
    elim (Bool-cases (same (unit_file name) l)) [
      | inl here ↦ elim seen [
        | inr noted ↦ inr (
          name,
          rw ((list_eq_iff name name).1 refl) refl,
          sym ((same_iff (unit_file name) l).0 here),
          noted,
        )
        | inl nothing ↦ inl (
            subst (λ k. node_at k w.nodes ≡ none) ((same_iff (unit_file name) l).0 here)
              (sym (stat-plain w.nodes (unit_file name) direct d) ∙ is_none nothing))
      ]
      | inr other ↦ elim (found h m w names l ds checked (rw other at mine)) [
        | inl e ↦ inl e
        | inr (n, e, at_l, noted) ↦
            inr (n, or_right (list_eq name n) (member names n) e, at_l, noted)
      ]
    ]

module _ (h : Host) where
  own-IsKept :
      (m : Fields) (w u v : World) (l : Location)
      → (read_manifest h w).1 ≡ ok m
      → All (IsChecked h w m) units
      → Left (gone_at h units) w u
      → own_at h u l ≡ true
      → node_at l v.nodes ≡ none
      → IsKept h w v l
  own-IsKept m w u v l got checked left mine gone = elim (or_cases (gone_at h units l) _ mine) [
    | inl e ↦ elim (or_cases (unit_at units l) _ e) [
      | inl unit ↦ elim (found h m w units l units_no_dots checked unit) [
        | inl e ↦ inl (gone ∙ sym e)
        | inr (name, e, at_l, noted) ↦ inr (inl (m, name, got, e, at_l, noted), gone)
      ]
      | inr linked ↦ inr (inr (inl linked), gone)
    ]
    | inr e ↦
        let (here, leads) = and_both (same current l) (to_release u.nodes) e in
        inr (inr (inr (sym ((same_iff current l).0 here), u, left, leads)), gone)
  ]
    where
      units_no_dots : All (λ name. NoDots (unit_file name)) units
      units_no_dots = ((refl, (refl, (refl, (refl, tt)))), ((refl, (refl, (refl, (refl, tt)))), tt))

      or_cases : (a b : Bool) → (a || b) ≡ true → (a ≡ true) ⊎ (b ≡ true)
      or_cases true b e = inl refl
      or_cases false b e = inr e

      and_both : (a b : Bool) → (a && b) ≡ true → (a ≡ true) × (b ≡ true)
      and_both true b e = (refl, e)
      and_both false b e = cc

  left-IsKept :
      (m : Fields) (w u v : World)
      → (read_manifest h w).1 ≡ ok m
      → All (IsChecked h w m) units
      → Left (gone_at h units) w u
      → Left (own_at h u) w v
      → (l : Location) → IsKept h w v l
  left-IsKept m w u v got checked removed left l = elim (left.at l) [
    | inl e ↦ inl e
    | inr (mine, gone) ↦ own-IsKept m w u v l got checked removed mine gone
  ]

  -- The part behind the tests.
  taken-IsKept :
      (m : Fields) (apply : Bool) (w : World)
      → (read_manifest h w).1 ≡ ok m
      → All (IsChecked h w m) units
      → (l : Location) → IsKept h w ((if apply then take_down h else pure tt) w).0 l
  unfolding pure
  taken-IsKept m false w got checked l = inl refl
  taken-IsKept m true w got checked l =
      left-IsKept m w _ _ got checked (remove_units-Left h units w) (take_down-Left h w) l

  -- Whatever calls fail, also halfway, an uninstallation leaves every location as it is but a unit's file that
  -- has the digest of install.json, a link that `systemctl disable` removes for a unit, and the link current,
  -- where it leads to a release in a world in which of the old one at most units' files and such links are gone;
  -- and of these nothing but their absence is left.
  pub uninstall-IsKept :
      (apply : Bool) (w : World) (l : Location) → IsKept h w (uninstall h apply w).0 l
  unfolding uninstall
  uninstall-IsKept apply w l = elim (reads-cases (read_manifest h) _ w (read_manifest-Reads h)) [
    | inl e ↦ inl (ap (λ x. node_at l x.nodes) e)
    | inr (m, got, e) ↦
        elim (reads-cases (unit_conflicts h m units) _ w (unit_conflicts-Reads h m units)) [
          | inl e1 ↦ inl (ap (λ x. node_at l x.nodes) (e ∙ e1))
          | inr (u, tested, e1) ↦
              subst (λ x. IsKept h w x l) (sym (e ∙ e1))
                (taken-IsKept m apply w got (unit_conflicts-ok h m units w tested) l)
        ]
  ]
