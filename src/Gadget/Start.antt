-- ===== src/Gadget/Start.antt =====
-- `start` of tools/gadget.py.
use nanopc_t6_kvm.Base.{
  ℕ, ◌+◌, Bool, true, false, ◌&&◌, ◌||◌, not, List, [], ◌∷◌, ◌++◌, Option, none, some,
  if◌then◌else◌, list_eq, ok, err, ◌>>◌, raise_if,
}
use nanopc_t6_kvm.Base.Texts.{strip}
use nanopc_t6_kvm.Broker.{codes}
use nanopc_t6_kvm.Panel.Update.{is_empty}
use nanopc_t6_kvm.Value.{Json}
use nanopc_t6_kvm.Gadget.{
  GadgetError, symlink, not_mounted, existing_gadget, existing_nodes, udc_in_use, still_running,
  existing_work, unexpected_nodes, no_device, no_group, Check, gadget_path, Step, call, stop,
  perform, Site, Action, cleanup,
}

-- What `start` finds before its first call: the names of gadgets, and those in /dev that begin with hidg.
pub record Host : Type 0 where
  pub root_is_dir : Bool
  pub udc_is_dir : Bool
  pub gadgets : List (List ℕ)
  pub nodes : List (List ℕ)
  pub udc_function : Option (List ℕ)
  pub units_stopped : Bool
  pub work_linked : Bool
  pub work_exists : Bool
  pub group_exists : Bool

abbrev pub no_names : List (List ℕ) → Bool
no_names [] = true
no_names (n ∷ ns) = false

abbrev pub in_use : Option (List ℕ) → Bool
in_use none = false
in_use (some text) = not (is_empty (strip text))

unfoldable pub check_empty : Host → Check
check_empty h =
    raise_if (not h.root_is_dir || not h.udc_is_dir) not_mounted
    >> (raise_if (not (no_names h.gadgets)) existing_gadget
        >> (raise_if (not (no_names h.nodes)) existing_nodes
            >> raise_if (in_use h.udc_function) udc_in_use))

-- The tests before the first call.
unfoldable pub check_start : Host → Check
check_start h =
    check_empty h
    >> (raise_if (not h.units_stopped) still_running
        >> (raise_if h.work_linked symlink
            >> (raise_if h.work_exists existing_work >> raise_if (not h.group_exists) no_group)))

-- A call of `start` that changes something, by the path; what is written to the gadget's attributes is
-- not kept.
pub data Made : Type 0 where
  mkdir write chown chmod : List ℕ → Made
  symlink_to : (path target : List ℕ) → Made

-- What the kernel has made of the gadget: whether each function has `no_out_endpoint`, the HID nodes that
-- are there after the wait, and for the first two whether they are links and devices.
pub record Nodes : Type 0 where
  pub out_endpoint : ℕ → Bool
  pub names : List (List ℕ)
  pub is_link : ℕ → Bool
  pub is_device : ℕ → Bool

abbrev pub work : List ℕ
work = codes "/run/t6-kvm-otg"

abbrev pub owner : List ℕ
owner = codes "/run/t6-kvm-otg/owner.json"

abbrev pub put : List ℕ → Step Made
put rel = call (write (gadget_path ++ rel))

abbrev pub make : List ℕ → Step Made
make rel = call (mkdir (gadget_path ++ rel))

abbrev pub hid_name : ℕ → List ℕ
hid_name n = codes "hid.usb" ++ ((b'0' + n) ∷ [])

abbrev pub node_path : ℕ → List ℕ
node_path n = codes "/dev/hidg" ++ ((b'0' + n) ∷ [])

-- One round of the loop over the two functions.
abbrev pub hid_steps : Nodes → ℕ → List (Step Made)
hid_steps k n =
    let f = codes "functions/" ++ hid_name n in
    make f
    ∷ put (f ++ codes "/protocol")
    ∷ put (f ++ codes "/subclass")
    ∷ put (f ++ codes "/report_length")
    ∷ put (f ++ codes "/report_desc")
    ∷ ((if k.out_endpoint n then put (f ++ codes "/no_out_endpoint") ∷ [] else [])
        ++ (call
              (symlink_to (gadget_path ++ (codes "configs/c.1/" ++ hid_name n)) (gadget_path ++ f))
            ∷ []))

abbrev pub names_eq : List (List ℕ) → List (List ℕ) → Bool
names_eq [] [] = true
names_eq (n ∷ ns) (m ∷ ms) = list_eq n m && names_eq ns ms
names_eq ns ms = false

abbrev pub test : Bool → GadgetError → List (Step Made)
test bad e = if bad then stop e ∷ [] else []

abbrev pub node_steps : Nodes → ℕ → List (Step Made)
node_steps k n =
    test (k.is_link n) symlink
    ++ (test (not (k.is_device n)) no_device
        ++ (call (chown (node_path n)) ∷ call (chmod (node_path n)) ∷ []))

abbrev pub expected_nodes : List (List ℕ)
expected_nodes = codes "hidg0" ∷ codes "hidg1" ∷ []

abbrev pub descriptor_steps : List (Step Made)
descriptor_steps =
    call (mkdir (codes "/sys/kernel/config/usb_gadget/t6-kvm"))
    ∷ call (write owner)
    ∷ put (codes "idVendor")
    ∷ put (codes "idProduct")
    ∷ put (codes "bcdUSB")
    ∷ put (codes "bcdDevice")
    ∷ make (codes "strings/0x409")
    ∷ put (codes "strings/0x409/manufacturer")
    ∷ put (codes "strings/0x409/product")
    ∷ put (codes "strings/0x409/serialnumber")
    ∷ make (codes "configs/c.1")
    ∷ make (codes "configs/c.1/strings/0x409")
    ∷ put (codes "configs/c.1/strings/0x409/configuration")
    ∷ put (codes "configs/c.1/MaxPower")
    ∷ []

-- The `try` block in its parts, each with those that follow it. `k.names` is sorted, as the source sorts
-- it.
abbrev pub second_node : Nodes → List (Step Made)
second_node k = node_steps k 1 ++ (call (write owner) ∷ [])

abbrev pub nodes_part : Nodes → List (Step Made)
nodes_part k = node_steps k 0 ++ second_node k

abbrev pub names_part : Nodes → List (Step Made)
names_part k = test (not (names_eq k.names expected_nodes)) unexpected_nodes ++ nodes_part k

abbrev pub bind_part : Nodes → List (Step Made)
bind_part k = (put (codes "UDC") ∷ []) ++ names_part k

abbrev pub second_function : Nodes → List (Step Made)
second_function k = hid_steps k 1 ++ bind_part k

abbrev pub functions_part : Nodes → List (Step Made)
functions_part k = hid_steps k 0 ++ second_function k

unfoldable pub try_steps : Nodes → List (Step Made)
try_steps k = descriptor_steps ++ functions_part k

abbrev pub work_steps : List (Step Made)
work_steps = call (mkdir work) ∷ call (chown work) ∷ call (write owner) ∷ []

-- The calls that `start` made, and those of a `cleanup` where an exception was caught, with what ended it.
pub record Started : Type 0 where
  pub made : List Made
  pub removed : List Action
  pub result : Check

module _ (json : Json) (fails : Made → Bool) (fails_removal : Action → Bool) (k : Nodes)
    (left : Site) where
  -- The exception is raised again, whether `cleanup` returns or raises.
  abbrev pub on_try : List Made → List Made × Check → Started
  on_try before (made, ok _) = record { made = before ++ made; removed = []; result = ok tt }
  on_try before (made, err e) = record {
    made = before ++ made;
    removed = (cleanup json fails_removal left).0;
    result = err e;
  }

  abbrev pub on_work : List Made × Check → Started
  on_work (made, err e) = record { made = made; removed = []; result = err e }
  on_work (made, ok _) = on_try made (perform fails (try_steps k))

  abbrev pub on_checked : Check → Started
  on_checked (err e) = record { made = []; removed = []; result = err e }
  on_checked (ok _) = on_work (perform fails work_steps)

  -- `left` is what the tool finds where an exception of the `try` block was caught.
  unfoldable pub start : Host → Started
  start h = on_checked (check_start h)
