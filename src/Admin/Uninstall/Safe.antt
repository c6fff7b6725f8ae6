-- ===== src/Admin/Uninstall/Safe.antt =====
-- What `uninstall` of tools/admin.py removes: the part that changes something.
use nanopc_t6_kvm.Base.{
  ℕ, ◌≡◌, inl, inr, refl, Bool, true, false, ◌&&◌, ◌||◌, List, [], ◌∷◌, Bool-cases,
}
use nanopc_t6_kvm.Admin.{Location, same}
use nanopc_t6_kvm.Admin.Files.{same_refl}
use nanopc_t6_kvm.Admin.Call.{World, Host, pure, look, raise_if, ◌>>=◌}
use nanopc_t6_kvm.Admin.Call.Reads.{Reads-look, Reads-raise_if}
use nanopc_t6_kvm.Admin.Call.Removes.{
  Left, Left-same, Left-wider, Left-unset, Left-run, Left-bind, Left-read,
}
use nanopc_t6_kvm.Admin.Checks.{units}
use nanopc_t6_kvm.Admin.Checks.Returned.{ensure_stopped-Reads}
use nanopc_t6_kvm.Admin.Release.{current}
use nanopc_t6_kvm.Admin.Uninstall.{
  unit_file, to_release, remove_links, disable, remove_units, remove_current, take_down,
}

-- One of some locations.
abbrev pub one_of : List Location → Location → Bool
one_of [] l = false
one_of (k ∷ ks) l = same k l || one_of ks l

-- The file of one of the units, and one of the links that `systemctl disable` removes for them.
abbrev pub unit_at : List (List ℕ) → Location → Bool
unit_at [] l = false
unit_at (name ∷ names) l = same (unit_file name) l || unit_at names l

abbrev pub wanted_at : Host → List (List ℕ) → Location → Bool
wanted_at h [] l = false
wanted_at h (name ∷ names) l = one_of (h.wants name) l || wanted_at h names l

abbrev pub gone_at : Host → List (List ℕ) → Location → Bool
gone_at h names l = unit_at names l || wanted_at h names l

pub or_left : (a b : Bool) → a ≡ true → (a || b) ≡ true
or_left true b e = refl
or_left false b e = cc

pub or_right : (a b : Bool) → b ≡ true → (a || b) ≡ true
or_right true b e = refl
or_right false b e = e

-- The two of a unit among those of all.
or_more : (a b c d : Bool) → (b || d) ≡ true → ((a || b) || (c || d)) ≡ true
or_more true b c d e = refl
or_more false true c d e = refl
or_more false false true d e = refl
or_more false false false d e = e

abbrev pub current_at : World → Location → Bool
current_at u l = same current l && to_release u.nodes

module _ (h : Host) where
  -- What may be gone, where `u` is the world behind the removal of the units.
  abbrev pub own_at : World → Location → Bool
  own_at u l = gone_at h units l || current_at u l

  remove_links-Left : (ls : List Location) (w : World) → Left (one_of ls) w (remove_links h ls w).0
  unfolding remove_links pure
  remove_links-Left [] w = Left-same w w refl
  remove_links-Left (l ∷ ls) w =
      Left-bind _ _ w (Left-unset h l w (rw (same_refl l) refl))
        (λ _. Left-wider _ _ (λ k e. or_right _ _ e) (remove_links-Left ls _))

  disable-Left : (name : List ℕ) (w : World) → Left (one_of (h.wants name)) w (disable h name w).0
  unfolding disable
  disable-Left name w = Left-bind _ _ w (Left-run h _ w) (λ _. remove_links-Left (h.wants name) _)

  pub remove_units-Left :
      (names : List (List ℕ)) (w : World) → Left (gone_at h names) w (remove_units h names w).0
  unfolding remove_units pure
  remove_units-Left [] w = Left-same w w refl
  remove_units-Left (name ∷ names) w =
      Left-bind _ _ w (Left-wider _ _ (λ l e. or_right _ _ (or_left _ _ e)) (disable-Left name w))
        (λ _.
          Left-bind _ _ _ (Left-unset h (unit_file name) _ (rw (same_refl (unit_file name)) refl))
            (λ _.
              Left-wider _ _
                (λ l e.
                  or_more (same (unit_file name) l) (unit_at names l) (one_of (h.wants name) l)
                    (wanted_at h names l) e)
                (remove_units-Left names _)))

  remove_current-Left : (w : World) → Left (current_at w) w (remove_current h w).0
  unfolding remove_current ◌>>=◌ look raise_if
  remove_current-Left w = elim (Bool-cases (to_release w.nodes)) [
    | inl own ↦ rw own (Left-unset h current w (rw (own, same_refl current) refl))
    | inr other ↦ rw other (Left-same w w refl)
  ]

  pub take_down-Left : (w : World) → Left (own_at (remove_units h units w).0) w (take_down h w).0
  unfolding take_down
  take_down-Left w = Left-read _ _ w (ensure_stopped-Reads h units) (λ _.
      Left-read _ _ w (Reads-look _) (λ active. Left-read _ _ w (Reads-raise_if _ _) (λ _.
        Left-bind (remove_units h units) _ w
          (Left-wider _ _ (λ l e. or_left _ _ e) (remove_units-Left units w))
          (λ _.
            Left-bind (remove_current h) _ _
              (Left-wider _ _ (λ l e. or_right _ _ e) (remove_current-Left _))
              (λ _. Left-run h _ _)))))
