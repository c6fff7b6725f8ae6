-- ===== src/Endpoint/Foreign.antt =====
-- What the endpoints of src/t6_kvm/daemon.py do to those of other processes.
use nanopc_t6_kvm.Base.{
  ℕ, ◌≡◌, inl, inr, refl, sym, ap, ◌∙◌, arith, true, false, ◌||◌, not, List, [], ◌∷◌, Option, none,
  some, ◌==◌, ==_refl, Bool-cases, contains,
}
use mathlib.Core.Path.{subst}
use nanopc_t6_kvm.Endpoint.{
  World, open_sock, fresh_socket, Between, acted, Calls, is_some, unlink_own, Owned, close,
  others_write, bind_made, bind_seen, at_bind, bind_now, bind,
}

-- What happens to one endpoint: calls of its methods, and changes by other processes.
pub data Event : Type 0 where
  bind_call : Calls → Event
  close_call : Between → Event
  others_set : Option ℕ → Event

abbrev pub on_event : Event → Owned → Owned
on_event (bind_call c) o = (bind c o).0
on_event (close_call others) o = close others o
on_event (others_set e) o = (record (o.0) { entry = e }, o.1)

unfoldable pub run : List Event → Owned → Owned
run [] o = o
run (e ∷ es) o = run es (on_event e o)

-- The identity that the `lstat` of a call of `bind` gives, on top of those known.
abbrev pub seen : Option ℕ → List ℕ → List ℕ
seen none known = known
seen (some i) known = i ∷ known

abbrev pub seen_by : List Event → List ℕ → List ℕ
seen_by [] known = known
seen_by (bind_call c ∷ es) known = seen_by es (seen (acted c.before_lstat (some c.inode)) known)
seen_by (close_call others ∷ es) known = seen_by es known
seen_by (others_set e ∷ es) known = seen_by es known

-- The identity of a socket is one of those.
abbrev IsOwn : List ℕ → Option ℕ → Type 0
IsOwn own none = Unit
IsOwn own (some i) = contains i own ≡ true

IsOwn-cons :
    (own : List ℕ) (j : ℕ) (identity : Option ℕ) → IsOwn own identity → IsOwn (j ∷ own) identity
IsOwn-cons own j none h = tt
IsOwn-cons own j (some i) h = ground arith

IsOwn-seen :
    (own : List ℕ) (o identity : Option ℕ) → IsOwn own identity → IsOwn (seen o own) identity
IsOwn-seen own none identity h = h
IsOwn-seen own (some j) identity h = IsOwn-cons own j identity h

close-identity : (others : Between) (o : Owned) → (close others o).1.identity ≡ o.1.identity
unfolding close
close-identity others (w, s) = refl

made-identity : (c : Calls) (o : Owned) → (bind_made c o).0.1.identity ≡ o.1.identity
unfolding close
made-identity c (w, s) = elim (Bool-cases (c.chmod_fails || c.listen_fails)) [
  | inl fails ↦ rw fails refl
  | inr fine ↦ rw fine refl
]

seen-IsOwn :
    (own : List ℕ) (c : Calls) (found : Option ℕ) (o : Owned)
    → IsOwn own o.1.identity
    → IsOwn (seen found own) (bind_seen c found o).0.1.identity
unfolding close
seen-IsOwn own c none (w, s) h = h
seen-IsOwn own c (some i) (w, s) h =
    subst (IsOwn (i ∷ own))
      (sym (made-identity c (record w { entry = some i }, record s { identity = some i })))
      (rw (==_refl i) refl)

now-IsOwn :
    (own : List ℕ) (c : Calls) (o : Owned)
    → IsOwn own o.1.identity
    → IsOwn (seen (acted c.before_lstat (some c.inode)) own) (bind_now c o).0.1.identity
unfolding close
now-IsOwn own c (w, s) h = elim (Bool-cases (c.bind_fails || is_some w.entry)) [
  | inl fails ↦ rw fails (IsOwn-seen own (acted c.before_lstat (some c.inode)) s.identity h)
  | inr fine ↦ rw fine (seen-IsOwn own c (acted c.before_lstat (some c.inode)) (w, s) h)
]

bind-IsOwn :
    (own : List ℕ) (c : Calls) (o : Owned)
    → IsOwn own o.1.identity
    → IsOwn (seen (acted c.before_lstat (some c.inode)) own) (bind c o).0.1.identity
unfolding bind
bind-IsOwn own c (w, s) h =
    elim (Bool-cases (not (w.parent_uid == w.euid) || others_write w.parent_mode)) [
      | inl refused ↦ rw refused (IsOwn-seen own (acted c.before_lstat (some c.inode)) s.identity h)
      | inr safe ↦ elim (Bool-cases (is_some w.entry)) [
        | inl taken ↦
            rw (safe, taken) (IsOwn-seen own (acted c.before_lstat (some c.inode)) s.identity h)
        | inr free ↦
            rw (safe, free)
              (now-IsOwn own c
                (
                  record w { entry = at_bind c.intruder w.entry },
                  record s { sock = some open_sock },
                )
                h)
      ]
    ]

run-IsOwn :
    (es : List Event) (own : List ℕ) (o : Owned)
    → IsOwn own o.1.identity
    → IsOwn (seen_by es own) (run es o).1.identity
unfolding run
run-IsOwn [] own o h = h
run-IsOwn (bind_call c ∷ es) own o h =
    run-IsOwn es (seen (acted c.before_lstat (some c.inode)) own) (bind c o).0
      (bind-IsOwn own c o h)
run-IsOwn (close_call others ∷ es) own o h =
    run-IsOwn es own (close others o) (rw (close-identity others o) h)
run-IsOwn (others_set e ∷ es) own o h = run-IsOwn es own (record (o.0) { entry = e }, o.1) h

unlink_own-foreign :
    (own : List ℕ) (others : Between) (i : ℕ) (identity : Option ℕ)
    → IsOwn own identity
    → contains i own ≡ false
    → unlink_own others (some i) identity ≡ acted others (some i)
unlink_own-foreign own others i none h foreign = refl
unlink_own-foreign own others i (some j) h foreign =
    let apart : (i == j) ≡ false = ground arith in rw apart refl

close-entry :
    (others : Between) (o : Owned)
    → (close others o).0.entry ≡ unlink_own others o.0.entry o.1.identity
unfolding close
close-entry others (w, s) = refl

bind-entry : (c : Calls) (o : Owned) (i : ℕ) → o.0.entry ≡ some i → (bind c o).0.0.entry ≡ some i
unfolding bind
bind-entry c (w, s) i e =
    elim (Bool-cases (not (w.parent_uid == w.euid) || others_write w.parent_mode)) [
      | inl refused ↦ rw refused e
      | inr safe ↦ rw (safe, e) refl
    ]

-- Whatever calls were made and whatever other processes did, also between the calls of `bind` and of `close`:
-- an entry that stands at the path when `close` looks, with an identity that no `lstat` of a call of `bind`
-- gave, is not unlinked, so what is left is what others make of it; and a further `bind` leaves it.
pub foreign_kept :
    (es : List Event) (w : World) (c : Calls) (others : Between) (i : ℕ)
    → let o = run es (w, fresh_socket) in
      (o.0).entry ≡ some i
      → contains i (seen_by es []) ≡ false
      → ((close others o).0.entry ≡ acted others (some i)) × ((bind c o).0.0.entry ≡ some i)
foreign_kept es w c others i e foreign =
    let o = run es (w, fresh_socket) in
    let left : unlink_own others (some i) (o.1).identity ≡ acted others (some i) =
      unlink_own-foreign (seen_by es []) others i (o.1).identity
        (run-IsOwn es [] (w, fresh_socket) tt) foreign in
    (
      close-entry others o ∙ ap (λ x. unlink_own others x (o.1).identity) e ∙ left,
      bind-entry c o i e,
    )
