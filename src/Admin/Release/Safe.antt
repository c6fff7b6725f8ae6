-- ===== src/Admin/Release/Safe.antt =====
-- What `rollback` of tools/admin.py leaves behind, whatever fails.
use nanopc_t6_kvm.Base.{
  ℕ, ◌≡◌, ◌⊎◌, inl, inr, refl, sym, ap, ◌∙◌, arith, Bool, true, false, ◌||◌, List, Option, some,
  if◌then◌else◌, Bool-cases, Result, ok, err,
}
use nanopc_t6_kvm.Admin.{Location, same, Node, node_at, delete, within}
use nanopc_t6_kvm.Admin.Files.{node_at-put, same_refl}
use nanopc_t6_kvm.Value.{Fields}
use mathlib.Core.Path.{subst}
use nanopc_t6_kvm.Admin.Call.{World, Host, AdminError, Do, pure, from, go_on, ◌>>=◌, ◌>>◌, rename}
use nanopc_t6_kvm.Admin.Call.Spares.{
  Spares, Spares-wider, Spares-look, Spares-raise_if, Spares-set, spares_rules,
}
use nanopc_t6_kvm.Admin.Call.Reads.{Reads-from, reads-cases}
use nanopc_t6_kvm.Admin.Checks.{
  backups, units, read_manifest, resolve_release, ensure_stopped, install_json, new_name, atomic,
}
use nanopc_t6_kvm.Admin.Checks.Leaves.{
  atomic-Spares, read_manifest-Spares, resolve_release-Spares, ensure_stopped-Spares,
}
use nanopc_t6_kvm.Admin.Checks.Returned.{read_manifest-Reads, resolve_release-Reads}
use nanopc_t6_kvm.Admin.Backup.Kept.{backup_file-Spares}
use nanopc_t6_kvm.Admin.Release.{
  current, pending_link, release_link, set_current, save_manifest, switch_release, named, rollback,
}

module _ (h : Host) where
  -- What a switch may change.
  abbrev pub is_switched : Location → Bool
  is_switched l =
      within backups l
      || (same current l
          || (same (pending_link h) l || (same install_json l || same (new_name h install_json) l)))

  save_manifest-Spares : Spares (within backups) (save_manifest h)
  unfolding save_manifest
  save_manifest-Spares = search (spares_rules, backup_file-Spares)

  widely : (l : Location) → is_switched l ≡ false → within backups l ≡ false
  widely l e = ground arith

  own_pending : is_switched (pending_link h) ≡ true
  own_pending = rw (same_refl (pending_link h)) refl

  own_new : is_switched (new_name h install_json) ≡ true
  own_new = rw (same_refl (new_name h install_json)) refl

  set_current-Spares : (name : List ℕ) → Spares is_switched (set_current h name)
  unfolding set_current
  set_current-Spares name = search (spares_rules, own_pending) depth 9

  saved-Spares : Spares is_switched (save_manifest h)
  saved-Spares = Spares-wider widely save_manifest-Spares

  written-Spares :
      (text : List ℕ) (mode uid gid : ℕ)
      → Spares is_switched (atomic h install_json text mode uid gid)
  written-Spares text mode uid gid = atomic-Spares h install_json text mode uid gid own_new refl

  pub switch_release-Spares :
      (name : List ℕ) (m : Fields) → Spares is_switched (switch_release h name m)
  unfolding switch_release
  switch_release-Spares name m =
      search
        (spares_rules, resolve_release-Spares, saved-Spares, set_current-Spares, written-Spares)
        depth 14

  rollback-Spares :
      (release : Option (List ℕ)) (apply : Bool) → Spares is_switched (rollback h release apply)
  unfolding rollback
  rollback-Spares release apply =
      search
        (
          spares_rules, read_manifest-Spares, resolve_release-Spares, ensure_stopped-Spares,
          switch_release-Spares,
        )
        depth 14

-- Behind the call the link is as it was, or leads to the release.
record Links {A : Type 0} (name : List ℕ) (call : Do A) : Type 0 where
  at :
      (w : World)
      → (node_at current (call w).0.nodes ≡ node_at current w.nodes)
        ⊎ (node_at current (call w).0.nodes ≡ some (release_link name))

spared-Links :
    {A : Type 0} {name : List ℕ} {own : Location → Bool} {call : Do A}
    → own current ≡ false
    → Spares own call
    → Links name call
spared-Links free s = record { at = λ w. inl (s.at current free w) }

module _ {A B : Type 0} {name : List ℕ} where
  go_on-Links :
      (r : World × Result AdminError A) (next : A → Do B) (n : Option Node)
      → ((a : A) → Links name (next a))
      → (node_at current r.0.nodes ≡ n) ⊎ (node_at current r.0.nodes ≡ some (release_link name))
      → (node_at current (go_on r next).0.nodes ≡ n)
        ⊎ (node_at current (go_on r next).0.nodes ≡ some (release_link name))
  go_on-Links (w, err e) next n k before = before
  go_on-Links (w, ok a) next n k before = elim ((k a).at w) [
    | inr linked ↦ inr linked
    | inl kept ↦ elim before [ inl b ↦ inl (kept ∙ b) | inr b ↦ inr (kept ∙ b) ]
  ]

  bind-Links :
      (call : Do A) (next : A → Do B)
      → Links name call
      → ((a : A) → Links name (next a))
      → Links name (call >>= next)
  unfolding ◌>>=◌
  bind-Links call next s k = record {
    at = λ w. go_on-Links (call w) next (node_at current w.nodes) k (s.at w);
  }

put_link-Links :
    (h : Host) (name : List ℕ) → Links name (rename h (pending_link h) current (release_link name))
unfolding rename
put_link-Links h name = record {
  at = λ w. elim (Bool-cases (h.fails w.made)) [
    | inl bad ↦ inl (rw bad refl)
    | inr good ↦ inr (
        rw (good, node_at-put current current (release_link name) (delete (pending_link h) w.nodes))
          refl)
  ];
}

set_current-Links : (h : Host) (name : List ℕ) → Links name (set_current h name)
unfolding set_current
set_current-Links h name =
    bind-Links _ _ (spared-Links {own = λ l. false} refl (Spares-look _)) (λ there.
      bind-Links _ _ (spared-Links {own = λ l. false} refl (Spares-raise_if _ _)) (λ _.
        bind-Links _ _
          (spared-Links {own = same (pending_link h)} refl
            (Spares-set h _ _ (same_refl (pending_link h))))
          (λ _. put_link-Links h name)))

switch_release-Links :
    (h : Host) (name : List ℕ) (m : Fields) → Links name (switch_release h name m)
unfolding switch_release
switch_release-Links h name m =
    bind-Links _ _ (spared-Links {own = λ l. false} refl (resolve_release-Spares h name)) (λ _.
      bind-Links _ _ (spared-Links {own = λ l. false} refl (Spares-look _)) (λ other.
        bind-Links _ _ (spared-Links {own = λ l. false} refl (Spares-raise_if _ _)) (λ _.
          bind-Links _ _ (spared-Links refl (save_manifest-Spares h)) (λ _.
            bind-Links _ _ (set_current-Links h name) (λ _.
              spared-Links {own = λ l. same install_json l || same (new_name h install_json) l} refl
                (atomic-Spares h install_json _ _ _ _
                  (rw (same_refl (new_name h install_json)) refl) refl))))))

-- The link is as it was, or leads to a release that the tool has accepted.
abbrev pub IsSafe : Host → World → World → Type 0
IsSafe h w v =
    (node_at current v.nodes ≡ node_at current w.nodes)
    ⊎ ((name : List ℕ) × (l : Location) × ((resolve_release h name w).1 ≡ ok l)
        × (node_at current v.nodes ≡ some (release_link name)))

as_before : (h : Host) (w v : World) → v ≡ w → IsSafe h w v
as_before h w v e = inl (ap (λ x. node_at current x.nodes) e)

turn-Links :
    (h : Host) (name : List ℕ) (m : Fields) (apply : Bool)
    → Links name (if apply then ensure_stopped h units >> switch_release h name m else pure tt)
unfolding pure
turn-Links h name m false = record { at = λ w. inl refl }
turn-Links h name m true =
    bind-Links _ _ (spared-Links {own = λ l. false} refl (ensure_stopped-Spares h units))
      (λ _. switch_release-Links h name m)

turned-IsSafe :
    (h : Host) (name : List ℕ) (call : Do (Unit {0})) (l : Location) (w : World)
    → (resolve_release h name w).1 ≡ ok l
    → Links name call
    → IsSafe h w (call w).0
turned-IsSafe h name call l w accepted s = elim (s.at w) [
  | inl kept ↦ inl kept
  | inr linked ↦ inr (name, l, accepted, linked)
]

rolled-IsSafe :
    (h : Host) (release : Option (List ℕ)) (apply : Bool) (w : World)
    → IsSafe h w (rollback h release apply w).0
unfolding rollback
rolled-IsSafe h release apply w = elim (reads-cases (read_manifest h) _ w (read_manifest-Reads h)) [
  | inl e ↦ as_before h w _ e
  | inr (m, _, e) ↦ elim (reads-cases (from (named release m)) _ w (Reads-from _)) [
    | inl e1 ↦ as_before h w _ (e ∙ e1)
    | inr (name, _, e1) ↦
        elim (reads-cases (resolve_release h name) _ w (resolve_release-Reads h name)) [
          | inl e2 ↦ as_before h w _ (e ∙ e1 ∙ e2)
          | inr (l, accepted, e2) ↦ subst (IsSafe h w) (sym (e ∙ e1 ∙ e2)) (
              turned-IsSafe h name
                (if apply then ensure_stopped h units >> switch_release h name m else pure tt) l w
                accepted (turn-Links h name m apply))
        ]
  ]
]

-- Whatever calls fail, also halfway, a rollback leaves everything as it is but the link current, the link that
-- it is made of, install.json, the name that this is written under and the backups; and the link is as it was,
-- or leads to a release that the tool has accepted.
pub rollback-IsSafe :
    (h : Host) (release : Option (List ℕ)) (apply : Bool) (w : World) (l : Location)
    → is_switched h l ≡ false
    → (node_at l (rollback h release apply w).0.nodes ≡ node_at l w.nodes)
      × IsSafe h w (rollback h release apply w).0
rollback-IsSafe h release apply w l free =
    ((rollback-Spares h release apply).at l free w, rolled-IsSafe h release apply w)
