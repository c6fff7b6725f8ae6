-- ===== src/Tests/Hosts.antt =====
-- The preflight at concrete hosts.
use nanopc_t6_kvm.Base.{ℕ, ◌≡◌, ◌↔◌, refl, true, List, [], ◌∷◌, none, some}
use nanopc_t6_kvm.Broker.{codes}
use nanopc_t6_kvm.Value.{end, field, obj, int, pos}
use nanopc_t6_kvm.Preflight.{read_line, listening_ports, Host, main}
use nanopc_t6_kvm.Preflight.Ready.{IsReady, main_iff}

abbrev tcp : List ℕ
tcp =
    codes
      "  sl  local_address rem_address   st\n   0: 00000000:170C 00000000:0000 0A 00000000:00000000\n   1: 0100007F:0016 00000000:0000 01 00000000:00000000\n   2: 0100007F:0050 00000000:0000 0A 00000000:00000000\n"

two_ports : listening_ports (some tcp ∷ none ∷ []) ≡ 80 ∷ 5900 ∷ []
unfolding listening_ports read_line
two_ports = refl

abbrev board : Host
board = record {
  machine = codes "aarch64";
  udcs = codes "fc000000.usb" ∷ [];
  tables = some tcp ∷ none ∷ [];
  device_is_character = true;
  mpp_is_character = true;
  gadgets = record { name = codes "old"; udc = some [] } ∷ [];
  probe = some (some (obj (field (codes "open_errno") (int (pos 0)) end)));
}

main_iff_example : (main true board 5901 ≡ some 0) ↔ IsReady board 5901
main_iff_example = main_iff board 5901
