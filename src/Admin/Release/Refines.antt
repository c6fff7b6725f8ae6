-- ===== src/Admin/Release/Refines.antt =====
-- Rollbacks of tools/admin.py as moves of a pair of names.
use nanopc_t6_kvm.Base.{
  ℕ, ◌≡◌, refl, sym, ap, ◌∙◌, true, List, [], ◌∷◌, Option, none, some, ok, ok-injective,
}
use mathlib.Core.Path.{subst}
use nanopc_t6_kvm.Broker.{codes}
use nanopc_t6_kvm.Value.{Value, Fields, str, null}
use nanopc_t6_kvm.Admin.Call.{World, Host, Do, pure, from, ◌>>◌}
use nanopc_t6_kvm.Admin.Call.Reads.{ended, Reads-from, bind-ok, reads-ok}
use nanopc_t6_kvm.Admin.Checks.{read_manifest, resolve_release, units, ensure_stopped}
use nanopc_t6_kvm.Admin.Checks.Returned.{
  read_manifest-Reads, resolve_release-Reads, ensure_stopped-Reads,
}
use nanopc_t6_kvm.Admin.Release.{get_or_null, or_null, chosen, named, rollback}
use nanopc_t6_kvm.Admin.Release.Moves.{Prints, Shows, switch_release-Shows, read_manifest-Shows}

-- The two names: the release that is shown, and the one to go back to.
abbrev pub Pair : Type 0
Pair = List ℕ × Option (List ℕ)

abbrev pub value_of : Option (List ℕ) → Value
value_of none = null
value_of (some name) = str name

abbrev pub back : List ℕ → Option (List ℕ) → Option Pair
back now (some (c ∷ cs)) = some (c ∷ cs, some now)
back now last = none

-- What a rollback means for them: the release asked for, or the previous one, takes the place of the one that
-- is shown, which is the previous one then. Without a previous one there is no way back.
abbrev pub step : Option (List ℕ) → Pair → Option Pair
step (some (c ∷ cs)) (now, last) = some (c ∷ cs, some now)
step release (now, last) = back now last

abbrev pub further : Option Pair → (Pair → Option Pair) → Option Pair
further none next = none
further (some pair) next = next pair

abbrev pub steps : List (Option (List ℕ)) → Pair → Option Pair
steps [] pair = some pair
steps (r ∷ rs) pair = further (step r pair) (steps rs)

chosen-back :
    (now : List ℕ) (last : Option (List ℕ)) {name : List ℕ}
    → chosen (value_of last) ≡ ok name
    → back now last ≡ some (name, some now)
chosen-back now none e = cc
chosen-back now (some []) e = cc
chosen-back now (some (c ∷ cs)) e = ap (λ n. some (n, some now)) (ok-injective e)

-- A release that was chosen is the one that the step takes.
named-step :
    (release : Option (List ℕ)) (m : Fields) (now : List ℕ) (last : Option (List ℕ)) {name : List ℕ}
    → get_or_null (codes "previous") m ≡ value_of last
    → named release m ≡ ok name
    → step release (now, last) ≡ some (name, some now)
named-step (some (c ∷ cs)) m now last p e = ap (λ n. some (n, some now)) (ok-injective e)
named-step (some []) m now last p e = chosen-back now last (sym (ap chosen p) ∙ e)
named-step none m now last p e = chosen-back now last (sym (ap chosen p) ∙ e)

-- One rollback.
rollback-step :
    (h : Host) (release : Option (List ℕ)) (now : List ℕ) (last : Option (List ℕ)) (w : World)
    {v : World}
    → Prints h
    → Shows h w now (value_of last)
    → rollback h release true w ≡ (v, ok tt)
    → (name : List ℕ) × (step release (now, last) ≡ some (name, some now))
      × Shows h v name (str now)
unfolding rollback from
rollback-step h release now last w {v} prints s e =
    let (m, got, e1) = reads-ok (read_manifest h) _ w (read_manifest-Reads h) e in
    let (name, picked, e2) = reads-ok (from (named release m)) _ w (Reads-from _) e1 in
    let (_, _, e3) = reads-ok (resolve_release h name) _ w (resolve_release-Reads h name) e2 in
    let (_, _, e4) = reads-ok (ensure_stopped h units) _ w (ensure_stopped-Reads h units) e3 in
    let written = read_manifest-Shows h w prints s got in
    let previous : get_or_null (codes "previous") m ≡ value_of last =
      ap (get_or_null (codes "previous")) written ∙ ap or_null s.last in
    let before : get_or_null (codes "current") m ≡ str now =
      ap (get_or_null (codes "current")) written ∙ ap or_null s.now in
    (
      name,
      named-step release m now last previous picked,
      rw before at (switch_release-Shows h name m w e4),
    )

-- Rollbacks, one behind the other.
abbrev pub deploy : Host → List (Option (List ℕ)) → Do (Unit {0})
deploy h [] = pure tt
deploy h (r ∷ rs) = rollback h r true >> deploy h rs

-- Where printed JSON is read back, and the link and install.json show these two names: rollbacks that have all
-- returned have moved the two names as the steps do, and the link and install.json show what these come to.
pub deploy-steps :
    (h : Host) (rs : List (Option (List ℕ))) (now : List ℕ) (last : Option (List ℕ)) (w : World)
    {v : World}
    → Prints h
    → Shows h w now (value_of last)
    → deploy h rs w ≡ (v, ok tt)
    → (pair : Pair) × (steps rs (now, last) ≡ some pair) × Shows h v pair.0 (value_of pair.1)
unfolding pure
deploy-steps h [] now last w prints s e =
    ((now, last), refl, subst (λ x. Shows h x now (value_of last)) (ap (λ r. r.0) e) s)
deploy-steps h (r ∷ rs) now last w prints s e =
    let (_, first, rest) = bind-ok (rollback h r true) (λ _. deploy h rs) w e in
    let (name, moved, shows) =
      rollback-step h r now last w prints s (ended (rollback h r true w) first) in
    let (pair, on, shown) = deploy-steps h rs name (some now) _ prints shows rest in
    (pair, ap (λ o. further o (steps rs)) moved ∙ on, shown)
