-- ===== src/Preflight.antt =====
-- src/t6_kvm/preflight.py: the inventory of a host, as far as its blockers depend on it.
pub mod Listens
pub mod Ready
use nanopc_t6_kvm.Base.{
  ℕ, ◌+◌, ◌-◌, ◌*◌, Bool, true, false, ◌&&◌, ◌||◌, not, List, [], ◌∷◌, ◌++◌, Option, none, some,
  ltb, leb, ◌==◌, if◌then◌else◌, get_elem?, drop, list_eq, contains,
}
use mathlib.Core.List.{reverse}
use nanopc_t6_kvm.Base.Texts.{cut, is_space, split}
use nanopc_t6_kvm.Broker.{codes}
use nanopc_t6_kvm.Panel.Settings.{newline}
use nanopc_t6_kvm.Panel.Backups.{text_leb}
use nanopc_t6_kvm.Value.{Value, Fields, get, truthy, obj}

-- `text.split()`, on ASCII: the words between white space.
abbrev pub words_on : List ℕ → List ℕ → List (List ℕ)
words_on [] [] = []
words_on (w ∷ ws) [] = reverse (w ∷ ws) ∷ []
words_on word (c ∷ cs) =
    let longer = words_on (c ∷ word) cs in
    let next = words_on [] cs in
    if is_space c then (elim word [ [] ↦ next | w ∷ ws ↦ reverse (w ∷ ws) ∷ next ]) else longer

abbrev pub words : List ℕ → List (List ℕ)
words line = words_on [] line

-- `text.splitlines()`, where lines end with a newline.
abbrev pub drop_empty : List (List ℕ) → List (List ℕ)
drop_empty [] = []
drop_empty ([] ∷ []) = []
drop_empty (l ∷ ls) = l ∷ drop_empty ls

abbrev pub lines : List ℕ → List (List ℕ)
lines text = drop_empty (split newline text)

-- The value of a hexadecimal digit; `none` is a ValueError. The signs, underscores and prefixes that `int`
-- also takes do not occur in these files.
abbrev pub hex_digit : ℕ → Option ℕ
hex_digit c =
    if leb b'0' c && leb c b'9'
    then some (c - b'0')
    else if leb b'A' c && leb c b'F'
    then some (c - b'A' + 10)
    else if leb b'a' c && leb c b'f'
    then some (c - b'a' + 10)
    else none

abbrev pub hex_on : ℕ → List ℕ → Option ℕ
hex_on before [] = some before
hex_on before (c ∷ cs) = elim (hex_digit c) [ none ↦ none | some d ↦ hex_on (before * 16 + d) cs ]

-- `int(text,16)`
abbrev pub hex : List ℕ → Option ℕ
hex [] = none
hex (c ∷ cs) = hex_on 0 (c ∷ cs)

-- `text.rsplit(":",1)[1]`; `none` is an IndexError.
abbrev pub behind_last : List ℕ → Option (List ℕ)
behind_last text = elim (cut b':' (reverse text)) [
  | none ↦ none
  | some (tail, front) ↦ some (reverse tail)
]

-- What a line of a table says: that a port is listened on, that none is, or an exception.
pub data Line : Type 0 where
  listens : ℕ → Line
  other malformed : Line

abbrev pub port_of : Option (List ℕ) → Line
port_of none = malformed
port_of (some text) = elim (hex text) [ none ↦ malformed | some p ↦ listens p ]

abbrev pub address_port : Option (List ℕ) → Line
address_port none = malformed
address_port (some address) = port_of (behind_last address)

abbrev pub on_state : List (List ℕ) → Option (List ℕ) → Line
on_state fields none = malformed
on_state fields (some s) =
    if list_eq s (codes "0A") then address_port (get_elem? fields 1) else other

unfoldable pub read_line : List ℕ → Line
read_line line = on_state (words line) (get_elem? (words line) 3)

-- The loop over the lines, which an exception ends.
abbrev pub ports_in : List (List ℕ) → List ℕ
ports_in [] = []
ports_in (l ∷ ls) =
    let rest = ports_in ls in
    elim (read_line l) [ listens p ↦ p ∷ rest | other ↦ rest | malformed ↦ [] ]

-- The ports of the tables in /proc/net; `none` is a file that cannot be read.
abbrev pub table_ports : List (Option (List ℕ)) → List ℕ
table_ports [] = []
table_ports (none ∷ ts) = table_ports ts
table_ports (some text ∷ ts) = ports_in (drop 1 (lines text)) ++ table_ports ts

abbrev pub insert : ℕ → List ℕ → List ℕ
insert p [] = p ∷ []
insert p (q ∷ qs) =
    let rest = insert p qs in if p == q then q ∷ qs else if ltb p q then p ∷ q ∷ qs else q ∷ rest

-- `sorted(set)`
abbrev pub sorted_set : List ℕ → List ℕ
sorted_set [] = []
sorted_set (p ∷ ps) = insert p (sorted_set ps)

unfoldable pub listening_ports : List (Option (List ℕ)) → List ℕ
listening_ports tables = sorted_set (table_ports tables)

-- A gadget's directory, and what `read` makes of its `UDC`: the stripped text, or `none` for the error's
-- object.
pub record Bound : Type 0 where
  pub name : List ℕ
  pub udc : Option (List ℕ)

-- What the inventory finds. `probe` is what a probe's output parses to, where one was given.
pub record Host : Type 0 where
  pub machine : List ℕ
  pub udcs : List (List ℕ)
  pub tables : List (Option (List ℕ))
  pub device_is_character : Bool
  pub mpp_is_character : Bool
  pub gadgets : List Bound
  pub probe : Option (Option Value)

pub data Blocker : Type 0 where
  wrong_machine no_controller port_taken no_device no_mpp no_probe probe_failed : Blocker
  foreign_gadget : List ℕ → Blocker

abbrev pub block : Bool → Blocker → List Blocker
block b x = if b then x ∷ [] else []

abbrev pub is_bound : Option (List ℕ) → Bool
is_bound none = true
is_bound (some []) = false
is_bound (some (c ∷ cs)) = true

abbrev pub gadget_blockers : List Bound → List Blocker
gadget_blockers [] = []
gadget_blockers (g ∷ gs) = block (is_bound g.udc) (foreign_gadget g.name) ++ gadget_blockers gs

abbrev pub is_nil : {A : Type 0} → List A → Bool
is_nil [] = true
is_nil (x ∷ xs) = false

abbrev pub failed_open : Fields → Bool
failed_open video = elim (get (codes "open_errno") video) [ none ↦ false | some v ↦ truthy v ]

-- The blockers of the probe. An output that is no JSON leaves an object without `open_errno`; one that is
-- not an object has no `get`, which is an AttributeError.
abbrev pub probe_blockers : Option (Option Value) → Option (List Blocker)
probe_blockers none = some (no_probe ∷ [])
probe_blockers (some none) = some []
probe_blockers (some (some (obj video))) = some (block (failed_open video) probe_failed)
probe_blockers (some (some v)) = none

abbrev pub host_blockers : Host → ℕ → List Blocker
host_blockers h port =
    block (not (list_eq h.machine (codes "aarch64") || list_eq h.machine (codes "arm64")))
      wrong_machine
    ++ (block (is_nil h.udcs) no_controller
        ++ (block (contains port (listening_ports h.tables)) port_taken
            ++ (block (not h.device_is_character) no_device
                ++ (block (not h.mpp_is_character) no_mpp ++ gadget_blockers h.gadgets))))

abbrev pub with_probe : List Blocker → Option (List Blocker) → Option (List Blocker)
with_probe found none = none
with_probe found (some bs) = some (found ++ bs)

-- `inspect(...)["blockers"]`
unfoldable pub blockers : Host → ℕ → Option (List Blocker)
blockers h port = with_probe (host_blockers h port) (probe_blockers h.probe)

abbrev pub exit_status : Bool → Option (List Blocker) → Option ℕ
exit_status strict none = none
exit_status strict (some bs) = some (if strict && not (is_nil bs) then 2 else 0)

-- The exit status of `main`; `none` is an exception.
unfoldable pub main : Bool → Host → ℕ → Option ℕ
main strict h port = exit_status strict (blockers h port)
