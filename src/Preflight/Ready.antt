-- ===== src/Preflight/Ready.antt =====
-- The hosts that src/t6_kvm/preflight.py lets pass.
use nanopc_t6_kvm.Base.{
  ℕ, ◌≡◌, ◌≢◌, ◌↔◌, ◌⊎◌, inl, inr, refl, sym, ap, ◌∙◌, arith, Bool, true, false, ◌&&◌, ◌||◌, not,
  List, [], ◌∷◌, ◌++◌, Option, none, some, ltb, ◌==◌, ==_iff, Bool-cases, All, list_eq, list_eq_iff,
  contains,
}
use nanopc_t6_kvm.Broker.{codes}
use nanopc_t6_kvm.Value.{Value, Fields, obj}
use nanopc_t6_kvm.Preflight.Listens.{FreeTable, table_ports-All, All-table_ports}
use nanopc_t6_kvm.Preflight.{
  insert, sorted_set, table_ports, listening_ports, Bound, Host, Blocker, wrong_machine,
  no_controller, port_taken, no_device, no_mpp, probe_failed, block, is_bound, gadget_blockers,
  is_nil, failed_open, probe_blockers, host_blockers, blockers, with_probe, exit_status, main,
}

contains-insert : (x p : ℕ) (ps : List ℕ) → contains x (insert p ps) ≡ contains x (p ∷ ps)
contains-insert x p [] = refl
contains-insert x p (q ∷ qs) = elim (Bool-cases (p == q)) [
  | inl same ↦ rw (same, (==_iff p q).0 same) (ground arith)
  | inr other ↦ elim (Bool-cases (ltb p q)) [
    | inl less ↦ rw (other, less) refl
    | inr more ↦ rw (other, more, contains-insert x p qs) (ground arith)
  ]
]

contains-sorted_set : (x : ℕ) (ps : List ℕ) → contains x (sorted_set ps) ≡ contains x ps
contains-sorted_set x [] = refl
contains-sorted_set x (p ∷ ps) =
    rw (contains-insert x p (sorted_set ps), contains-sorted_set x ps) refl

-- The probe was made, and its output does not say that the device could not be opened.
pub data IsProbed : Option (Option Value) → Type 0 where
  no_json : IsProbed (some none)
  opened : (video : Fields) → failed_open video ≡ false → IsProbed (some (some (obj video)))

pub record IsReady (h : Host) (port : ℕ) : Type 0 where
  pub machine : (h.machine ≡ codes "aarch64") ⊎ (h.machine ≡ codes "arm64")
  pub controller : h.udcs ≢ []
  pub free : All (FreeTable port) h.tables
  pub device : h.device_is_character ≡ true
  pub mpp : h.mpp_is_character ≡ true
  pub gadgets : All (λ g. g.udc ≡ some []) h.gadgets
  pub probe : IsProbed h.probe

none-block :
    (b : Bool) (x : Blocker) (rest : List Blocker) {r : Bool}
    → is_nil rest ≡ r
    → is_nil (block b x ++ rest) ≡ not b && r
none-block true x rest e = refl
none-block false x rest e = e

abbrev no_gadgets : List Bound → Bool
no_gadgets [] = true
no_gadgets (g ∷ gs) = not (is_bound g.udc) && no_gadgets gs

none-gadget_blockers : (gs : List Bound) → is_nil (gadget_blockers gs) ≡ no_gadgets gs
none-gadget_blockers [] = refl
none-gadget_blockers (g ∷ gs) =
    none-block (is_bound g.udc) (Blocker.foreign_gadget g.name) (gadget_blockers gs)
      (none-gadget_blockers gs)

unbound-All : (gs : List Bound) → no_gadgets gs ≡ true → All (λ g. g.udc ≡ some []) gs
unbound-All [] e = tt
unbound-All (g ∷ gs) e = elim (Bool-cases (is_bound g.udc)) [
  | inl bound ↦ let q = rw bound at e in cc
  | inr free ↦ (empty g.udc free, unbound-All gs (rw free at e))
]
  where
    empty : (u : Option (List ℕ)) → is_bound u ≡ false → u ≡ some []
    empty none h = cc
    empty (some []) h = refl
    empty (some (c ∷ cs)) h = cc

All-unbound : (gs : List Bound) → All (λ g. g.udc ≡ some []) gs → no_gadgets gs ≡ true
All-unbound [] h = refl
All-unbound (g ∷ gs) (h, hs) = rw h (All-unbound gs hs)

abbrev is_arm : List ℕ → Bool
is_arm m = list_eq m (codes "aarch64") || list_eq m (codes "arm64")

-- The tests of the host, all of them passed.
abbrev passes : Host → ℕ → Bool
passes h port =
    not (not (is_arm h.machine))
    && (not (is_nil h.udcs)
        && (not (contains port (listening_ports h.tables))
            && (not (not h.device_is_character)
                && (not (not h.mpp_is_character) && no_gadgets h.gadgets))))

none-host_blockers : (h : Host) (port : ℕ) → is_nil (host_blockers h port) ≡ passes h port
none-host_blockers h port = none-block (not (is_arm h.machine)) wrong_machine _ (
    none-block (is_nil h.udcs) no_controller _ (
      none-block (contains port (listening_ports h.tables)) port_taken _ (
        none-block (not h.device_is_character) no_device _
          (none-block (not h.mpp_is_character) no_mpp _ (none-gadget_blockers h.gadgets)))))

is_arm_lem : (m : List ℕ) → is_arm m ≡ true → (m ≡ codes "aarch64") ⊎ (m ≡ codes "arm64")
is_arm_lem m e = elim (Bool-cases (list_eq m (codes "aarch64"))) [
  | inl here ↦ inl ((list_eq_iff m (codes "aarch64")).0 here)
  | inr there ↦ inr ((list_eq_iff m (codes "arm64")).0 (rw there at e))
]

arm-is_arm : (m : List ℕ) → (m ≡ codes "aarch64") ⊎ (m ≡ codes "arm64") → is_arm m ≡ true
arm-is_arm m (inl e) = rw e refl
arm-is_arm m (inr e) = rw e refl

some_udc : (us : List (List ℕ)) → is_nil us ≡ false → us ≢ []
some_udc [] e = cc
some_udc (u ∷ us) e = λ q. cc

udc_some : (us : List (List ℕ)) → us ≢ [] → is_nil us ≡ false
udc_some [] h = absurd (h refl)
udc_some (u ∷ us) h = refl

append_none : (xs ys : List Blocker) → is_nil (xs ++ ys) ≡ is_nil xs && is_nil ys
append_none [] ys = refl
append_none (x ∷ xs) ys = refl

none_nil : (bs : List Blocker) → is_nil bs ≡ true → bs ≡ []
none_nil [] e = refl
none_nil (b ∷ bs) e = cc

-- The exit status is decided by the host's tests and the probe's.
exit_status-zero :
    (found : List Blocker) (o : Option (List Blocker))
    → exit_status true (with_probe found o) ≡ some 0
    → (is_nil found ≡ true) × (o ≡ some [])
exit_status-zero found none e = cc
exit_status-zero found (some bs) e = elim (Bool-cases (is_nil (found ++ bs))) [
  | inl free ↦
      let both : is_nil found && is_nil bs ≡ true = sym (append_none found bs) ∙ free in
      (ground arith, ap some (none_nil bs (ground arith)))
  | inr found_some ↦ let q = rw found_some at e in absurd (two_zero q)
]
  where
    two_zero : ◌≡◌ {A = Option ℕ} (some 2) (some 0) → ⊥
    two_zero q = cc

failed-block :
    (b : Bool) → ◌≡◌ {A = Option (List Blocker)} (some (block b probe_failed)) (some []) → b ≡ false
failed-block true e = cc
failed-block false e = refl

probe_of : (o : Option (Option Value)) → probe_blockers o ≡ some [] → IsProbed o
probe_of none e = cc
probe_of (some none) e = no_json
probe_of (some (some (obj video))) e = opened video (failed-block (failed_open video) e)
probe_of (some (some v)) e = cc

of_probe : (o : Option (Option Value)) → IsProbed o → probe_blockers o ≡ some []
of_probe _ no_json = refl
of_probe _ (opened video e) = rw e refl

-- With `--strict` the exit status is zero exactly for a host of the right machine, with a USB controller,
-- both devices and no bound gadget, whose tables have no line in the state 0A for the port before their first
-- malformed line, and with a probe whose output is an object that does not say that the device could not be
-- opened, or is no JSON at all.
pub main_iff : (h : Host) (port : ℕ) → (main true h port ≡ some 0) ↔ IsReady h port
unfolding main blockers listening_ports
main_iff h port = (ready, λ r. serves r)
  where
    ready : main true h port ≡ some 0 → IsReady h port
    ready e =
        let (none_found, probed) =
          exit_status-zero (host_blockers h port) (probe_blockers h.probe) e in
        let all : passes h port ≡ true = sym (none-host_blockers h port) ∙ none_found in
        let free_port : contains port (listening_ports h.tables) ≡ false = ground arith in
        record {
          machine = is_arm_lem h.machine (ground arith);
          controller = some_udc h.udcs (ground arith);
          free =
              table_ports-All port h.tables
                (sym (contains-sorted_set port (table_ports h.tables)) ∙ free_port);
          device = ground arith;
          mpp = ground arith;
          gadgets = unbound-All h.gadgets (ground arith);
          probe = probe_of h.probe probed;
        }

    serves : IsReady h port → main true h port ≡ some 0
    serves r =
        let taken =
          contains-sorted_set port (table_ports h.tables) ∙ All-table_ports port h.tables r.free in
        let all : passes h port ≡ true =
          rw
            (
              arm-is_arm h.machine r.machine,
              udc_some h.udcs r.controller,
              taken,
              r.device,
              r.mpp,
              All-unbound h.gadgets r.gadgets,
            )
            refl in
        let found = none-host_blockers h port ∙ all in
        rw (of_probe h.probe r.probe, append_none (host_blockers h port) [], found) refl
