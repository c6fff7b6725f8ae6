-- ===== src/Admin/Backup/Restored.antt =====
-- What `restore` of tools/admin.py makes of a record.
use nanopc_t6_kvm.Base.{
  ℕ, ◌%◌, ◌≡◌, ◌⊎◌, inl, inr, refl, sym, ap, ◌∙◌, Bool, true, false, ◌||◌, not, List, [], ◌∷◌, ◌++◌,
  some, ==_refl, list_eq, list_eq_iff, ok, ok-injective,
}
use mathlib.Core.Path.{subst}
use nanopc_t6_kvm.Base.Decimal.{decimal}
use nanopc_t6_kvm.Broker.{codes}
use nanopc_t6_kvm.Value.{Fields, obj}
use nanopc_t6_kvm.Admin.{Location, same, file, node_at, within, resolve, stat}
use nanopc_t6_kvm.Admin.Call.{
  World, Host, no_argument, foreign, bad_path, pure, look, from, raise_if,
}
use nanopc_t6_kvm.Admin.Call.Reads.{
  Reads-look, Reads-from, Reads-raise_if, bind-ok, reads-ok, read-ok, from-ok,
}
use nanopc_t6_kvm.Admin.Checks.{
  etc, backups, units, parent, no_symlink, new_name, rename_last, owned_file, owned_dir,
  read_object, of_project, ensure_stopped, goes_up, stays_in, checked_config_path,
}
use nanopc_t6_kvm.Admin.Checks.Returned.{
  no_symlink-Reads, owned_dir-Reads, read_object-Reads, ensure_stopped-Reads,
  checked_config_path-Reads, IsFile, read_object-ok, atomic-ok,
}
use nanopc_t6_kvm.Admin.Backup.{
  path_text, path_of, Regular, record_of, text_at, number_at, decoded, backup_file, put_back,
  restore_record, restore,
}
use nanopc_t6_kvm.Admin.Release.Moves.{Prints}

-- A name with something behind it is another one.
longer_name : (n : List ℕ) (c : ℕ) (cs : List ℕ) → list_eq (n ++ (c ∷ cs)) n ≡ false
longer_name [] c cs = refl
longer_name (d ∷ n) c cs = rw ((==_refl d), longer_name n c cs) refl

renamed_other :
    (l : Location) (c : ℕ) (cs : List ℕ)
    → (l ≡ []) ⊎ (same (rename_last (λ name. name ++ (c ∷ cs)) l) l ≡ false)
renamed_other [] c cs = inl refl
renamed_other (n ∷ []) c cs = inr (rw (longer_name n c cs) refl)
renamed_other (n ∷ m ∷ ms) c cs = elim (renamed_other (m ∷ ms) c cs) [
  | inl e ↦ cc
  | inr e ↦ inr (rw ((list_eq_iff n n).1 refl, e) refl)
]

checked_config_path-ok :
    (absolute : Bool) (l : Location) (w : World) {d : Location}
    → (checked_config_path absolute l w).1 ≡ ok d
    → d ≡ l
unfolding checked_config_path pure
checked_config_path-ok absolute l w e =
    let (_, _, e1) =
      read-ok (raise_if (not absolute || goes_up l || not (within etc l)) bad_path) _ w
        (Reads-raise_if _ _) e in
    let (_, _, e2) = read-ok (no_symlink l) _ w (no_symlink-Reads l) e1 in
    let (inside, _, e3) =
      read-ok (look (λ w. stays_in etc (resolve w.nodes l))) _ w (Reads-look _) e2 in
    let (_, _, e4) =
      read-ok (raise_if (not inside) bad_path) (λ _. pure l) w (Reads-raise_if _ _) e3 in
    sym (ok-injective e4)

module _ (h : Host) where
  -- The writes of a restore leave the record's file.
  put_back-ok :
      (l : Location) (f : Regular) (now : ℕ) (w : World) {v : World}
      → same (new_name h l) l ≡ false
      → put_back h l f.content (record_of h l f now) w ≡ (v, ok tt)
      → node_at l v.nodes ≡ some (owned_file h f.content (f.mode % 0o10000) f.uid f.gid)
  unfolding put_back
  put_back-ok l f now w apart e =
      let (_, _, e1) = reads-ok (ensure_stopped h units) _ w (ensure_stopped-Reads h units) e in
      let (_, _, e2) = bind-ok (backup_file h l) _ w e1 in
      let (mode, m, e3) =
        reads-ok (from (number_at (codes "mode") (record_of h l f now))) _ _ (Reads-from _) e2 in
      let (uid, u, e4) =
        reads-ok (from (number_at (codes "uid") (record_of h l f now))) _ _ (Reads-from _) e3 in
      let (gid, g, e5) =
        reads-ok (from (number_at (codes "gid") (record_of h l f now))) _ _ (Reads-from _) e4 in
      atomic-ok h l f.content mode uid gid _ apart e5
      ∙ rw
          (
            sym (ok-injective (from-ok _ _ m)),
            sym (ok-injective (from-ok _ _ u)),
            sym (ok-injective (from-ok _ _ g)),
          )
          refl

  new_name-other : (l : Location) → within etc l ≡ true → same (new_name h l) l ≡ false
  new_name-other l below_etc = elim (renamed_other l b'.' (codes "t6-new-" ++ decimal h.pid)) [
    | inl e ↦ let q : false ≡ true = rw e at below_etc in cc
    | inr e ↦ e
  ]

  -- The record that is read is the one in the file.
  read_object-record :
      (p : Location) (m : Fields) (w : World) {r : Fields}
      → Prints h
      → IsFile (stat w.nodes p) (h.print (obj m))
      → (read_object h p w).1 ≡ ok r
      → r ≡ m
  read_object-record p m w {r} prints there got =
      let (content, (uid, gid, mode, found), parsed) = read_object-ok h p w got in
      let (uid', gid', mode', written) = there in
      let files : some (file content uid gid mode) ≡ some (file (h.print (obj m)) uid' gid' mode') =
        sym found ∙ written in
      let text : content ≡ h.print (obj m) = cc in
      let back : some (obj r) ≡ some (obj m) = sym parsed ∙ ap h.json.loads text ∙ prints (obj m) in
      cc

  -- Behind the tests of a restore.
  record_put_back :
      (l : Location) (f : Regular) (now : ℕ) (w : World) {v : World}
      → h.decode64 (h.encode64 f.content) ≡ some f.content
      → path_of (path_text l) ≡ (true, l)
      → within etc l ≡ true
      → restore_record h (record_of h l f now) true w ≡ (v, ok tt)
      → node_at l v.nodes ≡ some (owned_file h f.content (f.mode % 0o10000) f.uid f.gid)
  unfolding restore_record
  record_put_back l f now w {v} coding reads inside e =
      let (text, t, e1) =
        reads-ok (from (text_at (codes "path") (record_of h l f now))) _ w (Reads-from _) e in
      let (_, _, e2) =
        reads-ok (raise_if (not (of_project (record_of h l f now))) foreign) _ w
          (Reads-raise_if _ _) e1 in
      let (dest, d, e3) =
        reads-ok (checked_config_path (path_of text).0 (path_of text).1) _ w
          (checked_config_path-Reads _ _) e2 in
      let (coded, c, e4) =
        reads-ok (from (text_at (codes "data") (record_of h l f now))) _ w (Reads-from _) e3 in
      let (content, k, e5) = reads-ok (from (decoded (h.decode64 coded))) _ w (Reads-from _) e4 in
      let of_l : text ≡ path_text l = sym (ok-injective (from-ok _ w t)) in
      let dest_l : dest ≡ l =
        checked_config_path-ok _ _ w d ∙ ap (λ s. (path_of s).1) of_l ∙ ap (λ s. s.1) reads in
      let of_f : coded ≡ h.encode64 f.content = sym (ok-injective (from-ok _ w c)) in
      let content_f : content ≡ f.content =
        ok-injective
          (sym (from-ok _ w k) ∙ ap (λ s. decoded (h.decode64 s)) of_f ∙ ap decoded coding) in
      put_back-ok l f now w (new_name-other l inside) (
        subst (λ x. put_back h x f.content (record_of h l f now) w ≡ (v, ok tt)) dest_l
          (subst (λ x. put_back h dest x (record_of h l f now) w ≡ (v, ok tt)) content_f e5))

  -- A restore of a record that `backup_file` writes, that has returned, has put the file back where it was: the
  -- content, the owner and the permission bits. What is printed as JSON has to be read back, the coding to be
  -- undone, and the location to be one below /etc/t6-kvm that its text names.
  pub restore-record :
      (l p : Location) (f : Regular) (now : ℕ) (w : World) {v : World}
      → Prints h
      → h.decode64 (h.encode64 f.content) ≡ some f.content
      → path_of (path_text l) ≡ (true, l)
      → within etc l ≡ true
      → IsFile (stat w.nodes p) (h.print (obj (record_of h l f now)))
      → restore h (some (true, p)) true w ≡ (v, ok tt)
      → node_at l v.nodes ≡ some (owned_file h f.content (f.mode % 0o10000) f.uid f.gid)
  unfolding restore
  restore-record l p f now w {v} prints coding reads inside there e =
      let (_, _, e1) = reads-ok (owned_dir h false etc) _ w (owned_dir-Reads h etc) e in
      let (_, _, e2) =
        reads-ok (raise_if (not true || not (same (parent p) backups)) no_argument) _ w
          (Reads-raise_if _ _) e1 in
      let (_, _, e3) = reads-ok (no_symlink p) _ w (no_symlink-Reads p) e2 in
      let (r, got, e4) = reads-ok (read_object h p) _ w (read_object-Reads h p) e3 in
      record_put_back l f now w coding reads inside (
        subst (λ x. restore_record h x true w ≡ (v, ok tt))
          (read_object-record p (record_of h l f now) w prints there got) e4)
