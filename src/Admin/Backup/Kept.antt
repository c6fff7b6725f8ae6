-- ===== src/Admin/Backup/Kept.antt =====
-- What `backup_file` of tools/admin.py leaves as it is.
use nanopc_t6_kvm.Base.{
  ℕ, ◌-◌, ◌≡◌, inl, inr, refl, true, false, ◌&&◌, List, [], ◌∷◌, Option, none, some, Bool-cases,
  length, All, All-take, list_eq, Result, ok, err,
}
use nanopc_t6_kvm.Admin.{Location, Node, file, dir, Nodes, node_at, within}
use nanopc_t6_kvm.Value.{Value, Fields, obj, int, pos, get}
use nanopc_t6_kvm.Gadget.{has_text}
use nanopc_t6_kvm.Broker.{codes}
use nanopc_t6_kvm.Admin.Call.{World, Host, AdminError, no_object, look, from, go_on, ◌>>=◌}
use nanopc_t6_kvm.Admin.Call.Spares.{Spares, spares_rules, Spares-bind, Spares-unset, Spares-pure}
use nanopc_t6_kvm.Admin.Checks.{backups, project}
use nanopc_t6_kvm.Admin.Checks.Leaves.{no_symlink-Spares, atomic-Spares}
use nanopc_t6_kvm.Admin.Backup.{
  path_text, make_root, entry_name, has_name, Owned, own_record, read_record, add_record, collect,
  before, insert, sorted, outdated, remove_all, rotate, backup_file, key_of,
}

entry_name-within :
    (r l : Location) (key : List ℕ) → has_name key (entry_name r l) ≡ true → within r l ≡ true
entry_name-within [] l key e = refl
entry_name-within (n ∷ r) [] key e = cc
entry_name-within (n ∷ r) (m ∷ l) key e = elim (Bool-cases (list_eq n m)) [
  | inl q ↦ rw q (entry_name-within r l key (rw q at e))
  | inr q ↦ let p : false ≡ true = rw q at e in cc
]

-- A record of the tool is below the directory of the backups.
abbrev pub IsRecord : Owned → Type 0
IsRecord o = within backups o.1 ≡ true

-- A record that is made of a file is at its location.
abbrev MadeAt : Location → Result AdminError (Option Owned) → Type 0
MadeAt l (ok (some o)) = o.1 ≡ l
MadeAt l r = Unit

own_record-At : (source l : Location) (r : Fields) → MadeAt l (own_record source l r)
own_record-At source l r =
    elim (Bool-cases (
      has_text project (get (codes "project") r)
      && has_text (path_text source) (get (codes "path") r))) [
        | inl own ↦ rw own (dated (get (codes "created_ns") r))
        | inr other ↦ rw other tt
      ]
  where
    dated :
        (v : Option Value)
        → MadeAt l (elim v [
          | none ↦ ok none
          | some (int (pos n)) ↦ ok (some (n, l))
          | some v ↦ err no_object
        ])
    dated none = tt
    dated (some (int (pos n))) = refl
    dated (some v) = tt

read_record-At : (h : Host) (source l : Location) (n : Node) → MadeAt l (read_record h source l n)
read_record-At h source l (file content uid gid mode) = parsed (h.json.loads content)
  where
    parsed :
        (v : Option Value)
        → MadeAt l (elim v [
          | none ↦ ok none
          | some (obj r) ↦ own_record source l r
          | some v ↦ err no_object
        ])
    parsed none = tt
    parsed (some (obj r)) = own_record-At source l r
    parsed (some v) = tt
read_record-At h source l n = tt

-- All that were read.
abbrev AllRecords : Result AdminError (List Owned) → Type 0
AllRecords (ok os) = All IsRecord os
AllRecords (err e) = Unit

add_record-All :
    (l : Location) (o : Result AdminError (Option Owned)) (rest : Result AdminError (List Owned))
    → within backups l ≡ true
    → MadeAt l o
    → AllRecords rest
    → AllRecords (add_record o rest)
add_record-All l (err e) rest h m r = tt
add_record-All l (ok none) rest h m r = r
add_record-All l (ok (some o)) (err e) h m r = tt
add_record-All l (ok (some o)) (ok os) h m r = (rw m h, r)

collect-All :
    (h : Host) (key : List ℕ) (source : Location) (ns : Nodes)
    → AllRecords (collect h key source ns)
collect-All h key source [] = tt
collect-All h key source ((l, n) ∷ ns) = elim (Bool-cases (has_name key (entry_name backups l))) [
  | inl named ↦ rw named (
      add_record-All l (read_record h source l n) (collect h key source ns)
        (entry_name-within backups l key named) (read_record-At h source l n)
        (collect-All h key source ns))
  | inr other ↦ rw other (collect-All h key source ns)
]

insert-All :
    (P : Owned → Type 0) (o : Owned) (os : List Owned) → P o → All P os → All P (insert o os)
insert-All P o [] p ps = (p, tt)
insert-All P o (q ∷ qs) p (a, as_) = elim (Bool-cases (before o q)) [
  | inl first ↦ rw first (p, (a, as_))
  | inr later ↦ rw later (a, insert-All P o qs p as_)
]

outdated-All : (P : Owned → Type 0) (os : List Owned) → All P os → All P (outdated os)
outdated-All P os h = All-take P (length os - 2) (sorted os) (sorted_all os h)
  where
    sorted_all : (os : List Owned) → All P os → All P (sorted os)
    sorted_all [] h = tt
    sorted_all (o ∷ os) (p, ps) = insert-All P o (sorted os) p (sorted_all os ps)

remove_all-Spares :
    (h : Host) (os : List Owned) → All IsRecord os → Spares (within backups) (remove_all h os)
remove_all-Spares h [] r = Spares-pure tt
remove_all-Spares h ((n, l) ∷ os) (mine, r) =
    Spares-bind _ _ (Spares-unset h l mine) (λ _. remove_all-Spares h os r)

module _ (h : Host) where
  remove_owned :
      (r : Result AdminError (List Owned)) (l : Location) (w : World)
      → AllRecords r
      → within backups l ≡ false
      → node_at l (go_on (w, r) (λ os. remove_all h (outdated os))).0.nodes ≡ node_at l w.nodes
  remove_owned (ok os) l w all free =
      (remove_all-Spares h (outdated os) (outdated-All IsRecord os all)).at l free w
  remove_owned (err e) l w all free = refl

  rotate-Spares : (k : Location) → Spares (within backups) (rotate h k)
  unfolding rotate ◌>>=◌ look from
  rotate-Spares k = record {
    at = λ l free w.
        remove_owned (collect h (key_of h k) k w.nodes) l w (collect-All h (key_of h k) k w.nodes)
          free;
  }

  make_root-Spares : (n : Option Node) → Spares (within backups) (make_root h n)
  make_root-Spares none = search spares_rules
  make_root-Spares (some (dir uid mode)) = search spares_rules
  make_root-Spares (some n) = search spares_rules

  -- Only the directory of the backups and what is below it are written.
  pub backup_file-Spares : (l : Location) → Spares (within backups) (backup_file h l)
  unfolding backup_file
  backup_file-Spares l =
      search (spares_rules, no_symlink-Spares, atomic-Spares, make_root-Spares, rotate-Spares) depth
        20
