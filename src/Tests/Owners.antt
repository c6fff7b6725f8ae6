-- ===== src/Tests/Owners.antt =====
-- Runs of src/t6_kvm/ownership.py.
use nanopc_t6_kvm.Base.{ℕ, ◌+◌, ◌≡◌, refl, arith, true, false, [], ◌∷◌, none, some, contains}
use nanopc_t6_kvm.Ownership.{
  takeover, reject, Control, start, admit, release, resume, Waiting, returned, waits, Step, Reach,
  here, next, begin, give_up,
}
use nanopc_t6_kvm.Ownership.Exclusive.{IsActive, one_controller}
use nanopc_t6_kvm.Ownership.Handover.{hand_over, SameOwner, IsRefused, refusals}
use nanopc_t6_kvm.Ownership.Hid.{HidOwner, added, removed, remove_all, keys_of_newest}

abbrev held : Control
held = record (start takeover) { owner = some 4; admitted = 4 ∷ [] }

first_admitted : (admit (start takeover) 4 true).0 ≡ held
unfolding admit
first_admitted = refl

first_reached : Reach (start takeover) (admit (start takeover) 4 true).0
first_reached = next here (begin 4 true refl)

first-IsActive : IsActive (admit (start takeover) 4 true).0 4
unfolding admit
first-IsActive = record { admitted = refl; open_still = refl }

one_controller_example : ◌≡◌ {A = ℕ} 4 4
one_controller_example =
    one_controller takeover (admit (start takeover) 4 true).0 4 4 first_reached first-IsActive
      first-IsActive

hand_over_example :
    let (t, outcome) = admit held 5 true in
    let released = release t 4 in
    (outcome ≡ waits)
    × (t.owner ≡ some 4)
    × (contains 4 t.cancelled ≡ true)
    × ((w : Waiting) × (t.lock ≡ some w)
        × Step released (resume released w).0
        × ((resume released w).0.owner ≡ some 5)
        × ((resume released w).0.lock ≡ none)
        × ((resume released w).1 ≡ returned true))
hand_over_example = hand_over held 4 5 refl refl (omega arith)

-- Nobody is the owner.
refusals_example :
    SameOwner (start reject) (admit (start reject) 5 false)
    × SameOwner (start reject) (give_up (start reject))
    × IsRefused (start reject) 5
refusals_example = refusals (start reject) 5

abbrev pressed : HidOwner
pressed = record { owner = some 1; clears = 1 }

keys_of_newest_example :
    let now = added pressed 2 in
    let gone = removed (remove_all now (1 ∷ 0 ∷ [])) 2 in
    (remove_all now (1 ∷ 0 ∷ []) ≡ now)
    × (gone.clears ≡ now.clears + 1)
    × (gone.owner ≡ none)
    × (removed gone 2 ≡ gone)
keys_of_newest_example = keys_of_newest pressed 2 (1 ∷ 0 ∷ []) (omega arith)
