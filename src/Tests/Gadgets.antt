-- ===== src/Tests/Gadgets.antt =====
-- The gadget tool at concrete inputs.
use nanopc_t6_kvm.Base.{
  ℕ, ◌≡◌, ◌⊎◌, refl, true, false, List, [], ◌∷◌, ◌++◌, none, some, ◌==◌, if◌then◌else◌, length, All,
  list_eq, ok,
}
use nanopc_t6_kvm.Broker.{codes}
use nanopc_t6_kvm.Value.{Fields, Json, end, field, pos, obj, arr, item, no_items, str, int}
use nanopc_t6_kvm.Gadget.{Link, Tree, Site, validate_owner, allowed_tree, check_site, cleanup}
use nanopc_t6_kvm.Gadget.Own.{IsOwn, check_site-IsOwn}
use nanopc_t6_kvm.Gadget.Removed.{IsOwnCall, cleanup-IsOwn}
use nanopc_t6_kvm.Gadget.Effects.{effects, standing, nothing}
use nanopc_t6_kvm.Gadget.Gone.{cleanup-gone}
use nanopc_t6_kvm.Gadget.Start.{
  Host, Nodes, start, check_start, check_empty, try_steps, expected_nodes,
}
use nanopc_t6_kvm.Gadget.Started.{IsClear, IsSafe, Failed, start-IsClear}

abbrev owner_fields : Fields
owner_fields = field (codes "project") (str (codes "t6-kvm")) (
    field (codes "boot_id") (str (codes "5f1c")) (
      field (codes "gadget_identity") (arr (item (int (pos 22)) (item (int (pos 71)) no_items)))
        end))

abbrev owner_json : Json
owner_json = record {
  loads = λ text. if list_eq text (codes "owner") then some (obj owner_fields) else none;
  dumps = λ v. [];
  to_text = λ v. [];
}

abbrev hid_link : List ℕ → Link
hid_link name = record {
  name = name;
  target = some (codes "/sys/kernel/config/usb_gadget/t6-kvm/functions/" ++ name);
}

abbrev made_tree : Tree
made_tree = record {
  identity = (22, 71);
  functions = some (codes "hid.usb0" ∷ codes "hid.usb1" ∷ []);
  configs = some (codes "c.1" ∷ []);
  serial = some (codes "T6KVM001\n");
  profile = some (hid_link (codes "hid.usb0") ∷ hid_link (codes "hid.usb1") ∷ []);
  profile_strings = true;
  strings = true;
}

abbrev made_site : Site
made_site = record {
  boot_id = codes "5f1c";
  owner_linked = false;
  owner = some (codes "owner");
  tree = some made_tree;
}

-- The gadget was made anew by somebody else.
abbrev foreign_site : Site
foreign_site = record made_site { tree = some (record made_tree { identity = (22, 90) }) }

made_site-passes : check_site owner_json made_site ≡ ok tt
unfolding check_site validate_owner allowed_tree
made_site-passes = refl

cleanup-gone_example :
    ((cleanup owner_json (λ _. false) made_site).1 ≡ ok tt)
    × (effects (cleanup owner_json (λ _. false) made_site).0 (standing made_tree) ≡ some nothing)
cleanup-gone_example =
    cleanup-gone owner_json made_site made_tree
      (check_site-IsOwn owner_json made_site made_site-passes) refl

foreign_site-left : (cleanup owner_json (λ _. false) foreign_site).0 ≡ []
unfolding cleanup check_site validate_owner allowed_tree
foreign_site-left = refl

cleanup-IsOwn_example :
    let r = cleanup owner_json (λ _. false) made_site in
    (r.0 ≡ []) ⊎ (IsOwn owner_json made_site × All IsOwnCall r.0)
cleanup-IsOwn_example = cleanup-IsOwn owner_json (λ _. false) made_site

abbrev clear_host : Host
clear_host = record {
  root_is_dir = true;
  udc_is_dir = true;
  gadgets = [];
  nodes = [];
  udc_function = some (codes "\n");
  units_stopped = true;
  work_linked = false;
  work_exists = false;
  group_exists = true;
}

abbrev two_nodes : Nodes
two_nodes = record {
  out_endpoint = λ n. n == 0;
  names = expected_nodes;
  is_link = λ n. false;
  is_device = λ n. true;
}

started-ok :
    (start owner_json (λ _. false) (λ _. false) two_nodes made_site clear_host).result ≡ ok tt
unfolding start check_start check_empty try_steps
started-ok = refl

-- A third node appears: the gadget is taken back.
abbrev three_nodes : Nodes
three_nodes = record two_nodes { names = expected_nodes ++ (codes "hidg2" ∷ []) }

taken_back :
    length (start owner_json (λ _. false) (λ _. false) three_nodes made_site clear_host).removed
    ≡ 11
unfolding start check_start check_empty try_steps cleanup check_site validate_owner allowed_tree
taken_back = refl

start-IsClear_example :
    let r = start owner_json (λ _. false) (λ _. false) three_nodes made_site clear_host in
    ((r.made ≡ []) × (r.removed ≡ []) × Failed r.result)
    ⊎ (IsClear clear_host × IsSafe owner_json three_nodes made_site r)
start-IsClear_example =
    start-IsClear owner_json (λ _. false) (λ _. false) three_nodes made_site clear_host
