-- ===== src/Gadget/Made.antt =====
-- The calls of `start` in tools/gadget.py: the paths that they are on, and what has to hold for the last one.
use nanopc_t6_kvm.Base.{
  ℕ, ◌≡◌, inl, inr, refl, Bool, true, false, ◌&&◌, ◌||◌, not, List, [], ◌∷◌, ◌++◌, Bool-cases,
  list_eq, list_eq_iff, ok, not-eq-false,
}
use nanopc_t6_kvm.Broker.{codes}
use nanopc_t6_kvm.Base.Texts.{strip_prefix}
use nanopc_t6_kvm.Endpoint.{is_some}
use nanopc_t6_kvm.Panel.Backups.{member}
use nanopc_t6_kvm.Gadget.Start.{
  Nodes, Made, mkdir, write, chown, chmod, symlink_to, work, owner, node_path, hid_steps, names_eq,
  test, node_steps, expected_nodes, descriptor_steps, second_node, nodes_part, names_part,
  bind_part, second_function, functions_part, try_steps, put,
}
use nanopc_t6_kvm.Gadget.{
  GadgetError, symlink, unexpected_nodes, no_device, Step, call, stop, perform,
}

abbrev pub path_of : Made → List ℕ
path_of (mkdir p) = p
path_of (write p) = p
path_of (chown p) = p
path_of (chmod p) = p
path_of (symlink_to p target) = p

-- The gadget and what is below it, the tool's directory and its file, and the two HID nodes.
abbrev pub is_own_path : List ℕ → Bool
is_own_path p =
    is_some (strip_prefix (codes "/sys/kernel/config/usb_gadget/t6-kvm") p)
    || is_some (strip_prefix work p)
    || member (node_path 0 ∷ node_path 1 ∷ []) p

abbrev pub all_own : List Made → Bool
all_own [] = true
all_own (m ∷ ms) = is_own_path (path_of m) && all_own ms

abbrev own_steps : List (Step Made) → Bool
own_steps [] = true
own_steps (call m ∷ steps) = is_own_path (path_of m) && own_steps steps
own_steps (stop e ∷ steps) = own_steps steps

own_steps-append :
    (xs ys : List (Step Made))
    → own_steps xs ≡ true
    → own_steps ys ≡ true
    → own_steps (xs ++ ys) ≡ true
own_steps-append [] ys h k = k
own_steps-append (stop e ∷ xs) ys h k = own_steps-append xs ys h k
own_steps-append (call m ∷ xs) ys h k = elim (Bool-cases (is_own_path (path_of m))) [
  | inl own ↦ rw own (own_steps-append xs ys (rw own at h) k)
  | inr other ↦ let q = rw other at h in cc
]

pub all_own-append :
    (xs ys : List Made) → all_own xs ≡ true → all_own ys ≡ true → all_own (xs ++ ys) ≡ true
all_own-append [] ys h k = k
all_own-append (m ∷ xs) ys h k = elim (Bool-cases (is_own_path (path_of m))) [
  | inl own ↦ rw own (all_own-append xs ys (rw own at h) k)
  | inr other ↦ let q = rw other at h in cc
]

pub all_own-perform :
    (fails : Made → Bool) (steps : List (Step Made))
    → own_steps steps ≡ true
    → all_own (perform fails steps).0 ≡ true
all_own-perform fails [] h = refl
all_own-perform fails (stop e ∷ steps) h = refl
all_own-perform fails (call m ∷ steps) h = elim (Bool-cases (is_own_path (path_of m))) [
  | inr other ↦ let q = rw other at h in cc
  | inl own ↦ elim (Bool-cases (fails m)) [
    | inl bad ↦ rw (bad, own) refl
    | inr good ↦ rw (good, own) (all_own-perform fails steps (rw own at h))
  ]
]

perform_append-ok :
    (fails : Made → Bool) (xs ys : List (Step Made))
    → (perform fails (xs ++ ys)).1 ≡ ok tt
    → ((perform fails xs).1 ≡ ok tt) × ((perform fails ys).1 ≡ ok tt)
perform_append-ok fails [] ys e = (refl, e)
perform_append-ok fails (stop x ∷ xs) ys e = cc
perform_append-ok fails (call m ∷ xs) ys e = elim (Bool-cases (fails m)) [
  | inl bad ↦ let q = rw bad at e in cc
  | inr good ↦ rw good (perform_append-ok fails xs ys (rw good at e))
]

test-ok :
    (fails : Made → Bool) (b : Bool) (x : GadgetError)
    → (perform fails (test b x)).1 ≡ ok tt
    → b ≡ false
test-ok fails true x e = cc
test-ok fails false x e = refl

own-hid_steps : (k : Nodes) (n : ℕ) → own_steps (hid_steps k n) ≡ true
own-hid_steps k n = elim (Bool-cases (k.out_endpoint n)) [
  | inl there ↦ rw there refl
  | inr absent ↦ rw absent refl
]

own-test : (b : Bool) (e : GadgetError) → own_steps (test b e) ≡ true
own-test true e = refl
own-test false e = refl

own-node_steps :
    (k : Nodes) (n : ℕ)
    → own_steps (call (chown (node_path n)) ∷ call (chmod (node_path n)) ∷ []) ≡ true
    → own_steps (node_steps k n) ≡ true
own-node_steps k n h =
    own_steps-append (test (k.is_link n) symlink)
      (test (not (k.is_device n)) no_device
        ++ (call (chown (node_path n)) ∷ call (chmod (node_path n)) ∷ []))
      (own-test (k.is_link n) symlink)
      (own_steps-append (test (not (k.is_device n)) no_device)
        (call (chown (node_path n)) ∷ call (chmod (node_path n)) ∷ [])
        (own-test (not (k.is_device n)) no_device) h)

pub own-try_steps : (k : Nodes) → own_steps (try_steps k) ≡ true
unfolding try_steps
own-try_steps k =
    let wrong = not (names_eq k.names expected_nodes) in
    let last =
      own_steps-append (node_steps k 1) (call (write owner) ∷ []) (own-node_steps k 1 refl) refl in
    let nodes = own_steps-append (node_steps k 0) (second_node k) (own-node_steps k 0 refl) last in
    let named =
      own_steps-append (test wrong unexpected_nodes) (nodes_part k)
        (own-test wrong unexpected_nodes) nodes in
    let bound = own_steps-append (put (codes "UDC") ∷ []) (names_part k) refl named in
    let second = own_steps-append (hid_steps k 1) (bind_part k) (own-hid_steps k 1) bound in
    own_steps-append descriptor_steps (functions_part k) refl
      (own_steps-append (hid_steps k 0) (second_function k) (own-hid_steps k 0) second)

names_eq_lem : (ns ms : List (List ℕ)) → names_eq ns ms ≡ true → ns ≡ ms
names_eq_lem [] [] e = refl
names_eq_lem [] (m ∷ ms) e = cc
names_eq_lem (n ∷ ns) [] e = cc
names_eq_lem (n ∷ ns) (m ∷ ms) e = elim (Bool-cases (list_eq n m)) [
  | inl same ↦ rw ((list_eq_iff n m).0 same, names_eq_lem ns ms (rw same at e)) refl
  | inr other ↦ let q = rw other at e in cc
]

-- The kernel has made two HID nodes, both devices, and no others.
pub record IsReady (k : Nodes) : Type 0 where
  pub names : k.names ≡ expected_nodes
  pub direct : (k.is_link 0 ≡ false) × (k.is_link 1 ≡ false)
  pub devices : (k.is_device 0 ≡ true) × (k.is_device 1 ≡ true)

node_steps-ok :
    (fails : Made → Bool) (k : Nodes) (n : ℕ)
    → (perform fails (node_steps k n)).1 ≡ ok tt
    → (k.is_link n ≡ false) × (k.is_device n ≡ true)
node_steps-ok fails k n e =
    let (direct, rest) =
      perform_append-ok fails (test (k.is_link n) symlink)
        (test (not (k.is_device n)) no_device
          ++ (call (chown (node_path n)) ∷ call (chmod (node_path n)) ∷ []))
        e in
    let (device, _) =
      perform_append-ok fails (test (not (k.is_device n)) no_device)
        (call (chown (node_path n)) ∷ call (chmod (node_path n)) ∷ []) rest in
    (
      test-ok fails (k.is_link n) symlink direct,
      not-eq-false (test-ok fails (not (k.is_device n)) no_device device),
    )

pub try_steps-IsReady :
    (fails : Made → Bool) (k : Nodes) → (perform fails (try_steps k)).1 ≡ ok tt → IsReady k
unfolding try_steps
try_steps-IsReady fails k e =
    let (_, e1) = perform_append-ok fails descriptor_steps (functions_part k) e in
    let (_, e2) = perform_append-ok fails (hid_steps k 0) (second_function k) e1 in
    let (_, e3) = perform_append-ok fails (hid_steps k 1) (bind_part k) e2 in
    let (_, e4) = perform_append-ok fails (put (codes "UDC") ∷ []) (names_part k) e3 in
    let (same, e5) =
      perform_append-ok fails (test (not (names_eq k.names expected_nodes)) unexpected_nodes)
        (nodes_part k) e4 in
    let (first, e6) = perform_append-ok fails (node_steps k 0) (second_node k) e5 in
    let (second, _) = perform_append-ok fails (node_steps k 1) (call (write owner) ∷ []) e6 in
    let ready0 = node_steps-ok fails k 0 first in
    let ready1 = node_steps-ok fails k 1 second in
    record {
      names = names_eq_lem k.names expected_nodes (
          not-eq-false
            (test-ok fails (not (names_eq k.names expected_nodes)) unexpected_nodes same));
      direct = (ready0.0, ready1.0);
      devices = (ready0.1, ready1.1);
    }
