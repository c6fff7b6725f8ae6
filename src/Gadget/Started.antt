-- ===== src/Gadget/Started.antt =====
-- What `start` of tools/gadget.py asks for, makes and takes back.
use nanopc_t6_kvm.Base.{
  ℕ, ◌≡◌, ◌⊎◌, inl, inr, refl, arith, Bool, true, false, ◌||◌, not, List, [], ◌∷◌, All, ok, err,
  ◌>>◌, raise_if, >>=-eq-ok, raise_if-eq-ok, not-eq-false,
}
use nanopc_t6_kvm.Value.{Json}
use nanopc_t6_kvm.Gadget.Own.{IsOwn}
use nanopc_t6_kvm.Gadget.Removed.{IsOwnCall, cleanup-IsOwn}
use nanopc_t6_kvm.Gadget.Start.{
  Host, Nodes, Made, no_names, in_use, check_empty, check_start, try_steps, work_steps, Started,
  on_try, on_work, on_checked, start,
}
use nanopc_t6_kvm.Gadget.{
  Site, GadgetError, Action, symlink, not_mounted, existing_gadget, existing_nodes, udc_in_use,
  still_running, existing_work, no_group, Check, perform,
}
use nanopc_t6_kvm.Gadget.Made.{
  all_own, IsReady, all_own-append, all_own-perform, own-try_steps, try_steps-IsReady,
}

-- There is no gadget, no HID node and no directory of the tool's, the controller is free and the units are
-- stopped.
pub record IsClear (h : Host) : Type 0 where
  pub mounted : (h.root_is_dir ≡ true) × (h.udc_is_dir ≡ true)
  pub no_gadget : h.gadgets ≡ []
  pub no_node : h.nodes ≡ []
  pub free : in_use h.udc_function ≡ false
  pub stopped : h.units_stopped ≡ true
  pub no_work : (h.work_linked ≡ false) × (h.work_exists ≡ false)

raised_none : (b : Bool) (e : GadgetError) → raise_if b e ≡ ok tt → b ≡ false
raised_none true e h = cc
raised_none false e h = refl

no_names_lem : (ns : List (List ℕ)) → no_names ns ≡ true → ns ≡ []
no_names_lem [] e = refl
no_names_lem (n ∷ ns) e = cc

check_start-IsClear : (h : Host) → check_start h ≡ ok tt → IsClear h
unfolding check_start check_empty
check_start-IsClear h e =
    let (_, empty, rest) =
      >>=-eq-ok (check_empty h)
        (λ _.
          raise_if (not h.units_stopped) still_running
          >> (raise_if h.work_linked symlink
              >> (raise_if h.work_exists existing_work >> raise_if (not h.group_exists) no_group)))
        e in
    let (mounted, e1) =
      raise_if-eq-ok (not h.root_is_dir || not h.udc_is_dir) not_mounted _ empty in
    let (gadget, e2) = raise_if-eq-ok (not (no_names h.gadgets)) existing_gadget _ e1 in
    let (node, e3) = raise_if-eq-ok (not (no_names h.nodes)) existing_nodes _ e2 in
    let (stopped, e4) = raise_if-eq-ok (not h.units_stopped) still_running _ rest in
    let (linked, e5) = raise_if-eq-ok h.work_linked symlink _ e4 in
    let (exists, _) = raise_if-eq-ok h.work_exists existing_work _ e5 in
    record {
      mounted = (ground arith, ground arith);
      no_gadget = no_names_lem h.gadgets (not-eq-false gadget);
      no_node = no_names_lem h.nodes (not-eq-false node);
      free = raised_none (in_use h.udc_function) udc_in_use e3;
      stopped = not-eq-false stopped;
      no_work = (linked, exists);
    }

-- The removals behind an exception, if any, are of the tool's own gadget.
abbrev pub Removes : Json → Site → List Action → Type 0
Removes json left removed = (removed ≡ []) ⊎ (IsOwn json left × All IsOwnCall removed)

abbrev pub Failed : Check → Type 0
Failed c = (e : GadgetError) × (c ≡ err e)

-- The calls are on paths of the tool's own, and there is an exception or the two nodes are ready.
abbrev pub IsSafe : Json → Nodes → Site → Started → Type 0
IsSafe json k left r =
    (all_own r.made ≡ true) × Removes json left r.removed × (Failed r.result ⊎ IsReady k)

module _ (json : Json) (fails : Made → Bool) (fails_removal : Action → Bool) (k : Nodes)
    (left : Site) where
  on_try-IsSafe :
      (before : List Made) (r : List Made × Check)
      → all_own before ≡ true
      → all_own r.0 ≡ true
      → (r.1 ≡ ok tt → IsReady k)
      → IsSafe json k left (on_try json fails fails_removal k left before r)
  on_try-IsSafe before (made, ok _) h g ready =
      (all_own-append before made h g, inl refl, inr (ready refl))
  on_try-IsSafe before (made, err e) h g ready =
      (all_own-append before made h g, cleanup-IsOwn json fails_removal left, inl (e, refl))

  on_work-IsSafe :
      (r : List Made × Check)
      → all_own r.0 ≡ true
      → IsSafe json k left (on_work json fails fails_removal k left r)
  on_work-IsSafe (made, err e) h = (h, inl refl, inl (e, refl))
  on_work-IsSafe (made, ok _) h =
      on_try-IsSafe made (perform fails (try_steps k)) h
        (all_own-perform fails (try_steps k) (own-try_steps k)) (try_steps-IsReady fails k)

  -- Whatever the kernel does and whatever calls fail, either an exception comes before the first call, or
  -- the host was clear: then every call is on a path of the tool's own, what is removed again is its own
  -- gadget, and without an exception there are exactly the two HID nodes, both devices.
  pub start-IsClear :
      (h : Host)
      → (((start json fails fails_removal k left h).made ≡ [])
          × ((start json fails fails_removal k left h).removed ≡ [])
          × Failed (start json fails fails_removal k left h).result)
        ⊎ (IsClear h × IsSafe json k left (start json fails fails_removal k left h))
  unfolding start
  start-IsClear h = go (check_start h) refl
    where
      go :
          (c : Check)
          → check_start h ≡ c
          → (((on_checked json fails fails_removal k left c).made ≡ [])
              × ((on_checked json fails fails_removal k left c).removed ≡ [])
              × Failed (on_checked json fails fails_removal k left c).result)
            ⊎ (IsClear h × IsSafe json k left (on_checked json fails fails_removal k left c))
      go (err e) q = inl (refl, refl, (e, refl))
      go (ok _) q = inr (
        check_start-IsClear h q,
        on_work-IsSafe (perform fails work_steps) (all_own-perform fails work_steps refl),
      )
