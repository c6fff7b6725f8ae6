-- ===== src/Tests/Panels.antt =====
-- The panel at concrete inputs.
use nanopc_t6_kvm.Base.{
  ℕ, ◌≡◌, ◌↔◌, refl, Bool, true, false, List, [], ◌∷◌, Option, none, some, if◌then◌else◌, list_eq,
}
use nanopc_t6_kvm.Base.Decimal.{number, decimal, decimal_on}
use nanopc_t6_kvm.Broker.{codes}
use nanopc_t6_kvm.Value.{Fields, end, field, pos, obj, str, int, boolean}
use nanopc_t6_kvm.Panel.Settings.{match_line, set_bitrate, read_bitrate, anywhere, set_yaml}
use nanopc_t6_kvm.Panel.Backups.{member, snapshot_name, Entry, snapshot, names, back_up, rotate}
use nanopc_t6_kvm.Panel.Update.{
  Change, Libraries, Files, Panel, Faults, Response, server_error, saved, change, update,
}
use nanopc_t6_kvm.Tests.Codec.{print, parse}
use nanopc_t6_kvm.Panel.Access.{Request, admitted, forbidden, auth}
use nanopc_t6_kvm.Panel.Access.Admitted.{IsAdmitted, auth_iff}

abbrev Passwords : Type 0
Passwords = List ℕ → Option (List ℕ)

abbrev accepts : Option (List ℕ) → List ℕ → Bool
accepts none p = false
accepts (some q) p = list_eq p q

-- Accounts as a function from names to passwords.
abbrev toy_accounts : Libraries
toy_accounts = record {
  Table = Passwords;
  delete = λ u t v. if list_eq u v then none else t v;
  set_password = λ u p t v. if list_eq u v then some p else t v;
  check = λ u p t. accepts (t u) p;
  loads = parse;
  print = print;
}

abbrev old_files : Files Passwords
old_files = record {
  streamer_toml = codes "fps = 60\nbitrate_kbps=8000 # main\n";
  main_yaml = codes "h264_bitrate: {default: 8000, min: 25}";
  htpasswd = λ u. if list_eq u (codes "admin") then some (codes "first") else none;
  vncpasswd = none;
  panel_json = none;
}

abbrev foreign_entry : Entry (Files Passwords)
foreign_entry = record { name = codes "t6-panel-notes"; owner = none; saved = none }

abbrev idle_panel : Panel Passwords
idle_panel = record {
  files = old_files;
  backups = foreign_entry ∷ snapshot 11 old_files ∷ snapshot 12 old_files ∷ [];
  tasks = [];
}

abbrev wish : Fields
wish = field (codes "bitrate_kbps") (int (pos 12000)) (
    field (codes "continuous") (boolean true) (
      field (codes "username") (str (codes "kvm"))
        (field (codes "password") (str (codes "second")) end)))

abbrev no_fault : Faults toy_accounts
no_fault = record { backup = none; write = none }

-- The write of main.yaml raises.
abbrev full_disk : Faults toy_accounts
full_disk = record { backup = none; write = some 1 }

abbrev after : Panel Passwords × Response
after = update toy_accounts no_fault 13 (codes "admin") (some (obj wish)) idle_panel

settings-written :
    set_bitrate 12000 old_files.streamer_toml ≡ codes "fps = 60\nbitrate_kbps = 12000 # main\n"
unfolding set_bitrate match_line decimal decimal_on
settings-written = refl

yaml-written :
    set_yaml 12000 anywhere old_files.main_yaml ≡ codes "h264_bitrate: {default: 12000, min: 25}"
unfolding set_yaml decimal decimal_on
yaml-written = refl

after-backups :
    names after.0.backups ≡ codes "t6-panel-notes" ∷ codes "t6-panel-12" ∷ codes "t6-panel-13" ∷ []
unfolding update change back_up rotate decimal decimal_on
after-backups = refl

abbrev wanted : Change
wanted = record {
  bitrate = 12000;
  continuous = true;
  user = codes "kvm";
  password = codes "second";
}

wish-wanted : change (codes "admin") wish ≡ some wanted
unfolding change
wish-wanted = refl

new_name : member (names idle_panel.backups) (snapshot_name 13) ≡ false
unfolding decimal decimal_on
new_name = refl

abbrev login : Bool → Option (List ℕ) → Request
login is_post origin = record {
  is_post = is_post;
  authorization = some (codes "bAsIc YWRtaW46Zmlyc3Q=");
  panel_header = some (codes "1");
  origin = origin;
  scheme = codes "http";
  host = codes "192.168.123.99:5899";
}

abbrev decode : List ℕ → Option (List ℕ)
decode v = if list_eq v (codes "YWRtaW46Zmlyc3Q=") then some (codes "admin:first") else none

login-admitted :
    auth toy_accounts decode old_files.htpasswd
      (login true (some (codes "http://192.168.123.99:5899")))
    ≡ admitted (codes "admin")
unfolding auth
login-admitted = refl

elsewhere-forbidden :
    auth toy_accounts decode old_files.htpasswd
      (login true (some (codes "http://192.168.123.9:5899")))
    ≡ forbidden
unfolding auth
elsewhere-forbidden = refl

auth_iff_example :
    let r = login true (some []) in
    (auth toy_accounts decode old_files.htpasswd r ≡ admitted (codes "admin"))
    ↔ IsAdmitted toy_accounts decode old_files.htpasswd r (codes "admin")
auth_iff_example =
    auth_iff toy_accounts decode old_files.htpasswd (login true (some [])) (codes "admin")

abbrev broken_off : Panel Passwords × Response
broken_off = update toy_accounts full_disk 13 (codes "admin") (some (obj wish)) idle_panel

-- The bitrate is written, and main.yaml is not.
broken_off-halfway :
    (broken_off.1 ≡ server_error)
    × (read_bitrate broken_off.0.files.streamer_toml ≡ some 12000)
    × (broken_off.0.files.main_yaml ≡ old_files.main_yaml)
unfolding update change back_up rotate decimal decimal_on read_bitrate match_line number set_bitrate
broken_off-halfway = (refl, refl, refl)
