-- ===== src/Ownership/Hid.antt =====
-- `HidOwner` of src/t6_kvm/ownership.py: whose teardown may release the keys.
use nanopc_t6_kvm.Base.{
  ℕ, ◌+◌, ◌≡◌, ◌≢◌, refl, arith, Bool, true, false, List, [], ◌∷◌, Option, none, some, ◌==◌,
  if◌then◌else◌, ==_refl, All,
}

-- `clears` counts the calls of the callback `clear`, which lifts every key and button.
pub record HidOwner : Type 0 where
  pub owner : Option ℕ
  pub clears : ℕ

unfoldable pub added : HidOwner → ℕ → HidOwner
added h ws = record { owner = some ws; clears = h.clears + 1 }

abbrev pub owned_by : Option ℕ → ℕ → Bool
owned_by none ws = false
owned_by (some o) ws = o == ws

unfoldable pub removed : HidOwner → ℕ → HidOwner
removed h ws = if owned_by h.owner ws then record { owner = none; clears = h.clears + 1 } else h

-- The teardowns of a list of sockets, in their order.
unfoldable pub remove_all : HidOwner → List ℕ → HidOwner
remove_all h [] = h
remove_all h (ws ∷ rest) = remove_all (removed h ws) rest

removed_other : (h : HidOwner) (o ws : ℕ) → h.owner ≡ some o → o ≢ ws → removed h ws ≡ h
unfolding removed
removed_other h o ws e ne = ground arith

remove_all_others :
    (h : HidOwner) (o : ℕ) (old : List ℕ)
    → h.owner ≡ some o
    → All (λ ws. o ≢ ws) old
    → remove_all h old ≡ h
unfolding remove_all
remove_all_others h o [] e ne = refl
remove_all_others h o (ws ∷ rest) e ne =
    rw (removed_other h o ws e ne.0) (remove_all_others h o rest e ne.1)

-- The late teardowns of older sockets, any number of them, clear none of the keys of the newest one;
-- its own teardown clears them, and clears them once however often it is reported.
pub keys_of_newest :
    (h : HidOwner) (ws : ℕ) (old : List ℕ)
    → All (λ other. ws ≢ other) old
    → let now = added h ws in
      let gone = removed (remove_all now old) ws in
      (remove_all now old ≡ now)
      × (gone.clears ≡ now.clears + 1)
      × (gone.owner ≡ none)
      × (removed gone ws ≡ gone)
unfolding added removed
keys_of_newest h ws old ne =
    let same = remove_all_others (added h ws) ws old refl ne in
    let own : (ws == ws) ≡ true = ==_refl ws in
    (same, rw same (rw own refl), rw same (rw own refl), rw same (rw own refl))
