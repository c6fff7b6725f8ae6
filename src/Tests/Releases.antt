-- ===== src/Tests/Releases.antt =====
-- The administration tool at a concrete host.
use nanopc_t6_kvm.Base.{
  ℕ, ◌+◌, ◌≡◌, inl, refl, true, false, List, [], ◌∷◌, ◌++◌, none, some, ◌==◌, ok,
}
use nanopc_t6_kvm.Base.Decimal.{decimal}
use nanopc_t6_kvm.Broker.{codes}
use nanopc_t6_kvm.Endpoint.{is_some}
use nanopc_t6_kvm.Value.{Fields, end, field, obj, str}
use nanopc_t6_kvm.Admin.{Location, Node, dir, file, link, Nodes, node_at, resolve, resolve_on, stat}
use nanopc_t6_kvm.Admin.Call.{
  World, Host, pure, raise, look, from, raise_if, ◌>>=◌, set, unset, rename, run, finally,
}
use nanopc_t6_kvm.Admin.Call.Reads.{ended}
use nanopc_t6_kvm.Admin.Checks.{
  place, base, backups, project, below, no_symlink, read, check_owned, atomic, make_owned,
  owned_dir, read_object, read_manifest, resolve_release, ensure_stopped, checked_config_path,
}
use nanopc_t6_kvm.Admin.Checks.Returned.{IsFile}
use nanopc_t6_kvm.Admin.Backup.{
  Regular, record_of, rotate, backup_file, put_back, restore_record, restore,
}
use nanopc_t6_kvm.Admin.Backup.Restored.{restore-record}
use nanopc_t6_kvm.Admin.Release.{current, set_current, save_manifest, switch_release, rollback}
use nanopc_t6_kvm.Admin.Release.Moves.{Shows}
use nanopc_t6_kvm.Admin.Release.Refines.{Pair, value_of, steps, deploy, deploy-steps}
use nanopc_t6_kvm.Admin.Release.Safe.{IsSafe, rollback-IsSafe}
use nanopc_t6_kvm.Admin.Uninstall.{unit_file, check_unit, unit_conflicts, uninstall}
use nanopc_t6_kvm.Admin.Uninstall.Own.{IsKept, uninstall-IsKept}
use nanopc_t6_kvm.Admin.Stage.{kvmd_commit, check_sum, check_sums, check_stage}
use nanopc_t6_kvm.Admin.Install.{
  owned_if, add_account, copy_all, give_all, copy_tree, prepare, put_units, install_on,
  install_from, install_stage, install,
}
use nanopc_t6_kvm.Admin.Install.Keeps.{install-etc}
use nanopc_t6_kvm.Admin.Install.Shown.{IsInstalled, install-IsInstalled}
use nanopc_t6_kvm.Admin.Main.{Args, roll_back, main}
use nanopc_t6_kvm.Admin.Main.Dry.{main_dry}
use nanopc_t6_kvm.Tests.Codec.{
  enc_v, enc_f, enc_i, size_v, size_f, size_i, dec_v, dec_f, dec_i, print, parse, parse-print,
}
use Prim.Native.String.{String}

abbrev toy_host : Host
toy_host = record {
  fails = λ n. false;
  time_ns = λ n. 1000 + n;
  pid = 7;
  euid = 0;
  egid = 0;
  active = λ unit. codes "inactive";
  wants = λ unit. below (place "etc/systemd/system/multi-user.target.wants") unit ∷ [];
  cwd = [];
  taken = false;
  group_id = some 990;
  json = record { loads = parse; dumps = λ v. []; to_text = λ v. [] };
  print = print;
  sha256 = λ s. s;
  encode64 = λ s. s;
  decode64 = λ s. some s;
}

abbrev failing_host : Host
failing_host = record toy_host { fails = λ n. n == 3 }

abbrev a_dir : String → Location × Node
a_dir text = (place text, dir 0 0o750)

abbrev a_file : String → List ℕ → Location × Node
a_file text content = (place text, file content 0 0 0o600)

abbrev unit_digests : Fields
unit_digests =
    field (codes "t6-kvmd.service") (str (codes "A"))
      (field (codes "t6-kvmd-vnc.service") (str (codes "B")) end)

abbrev manifest : Fields
manifest = field (codes "project") (str project) (
    field (codes "units") (obj unit_digests) (
      field (codes "current") (str (codes "r1")) (field (codes "previous") (str (codes "r2")) end)))

abbrev release_json : List ℕ
release_json = print (obj (field (codes "project") (str project) end))

abbrev toy_nodes : Nodes
toy_nodes =
    a_dir "opt/t6-kvm"
    ∷ a_file "opt/t6-kvm/.t6-owned" (codes "t6-kvm")
    ∷ a_file "opt/t6-kvm/install.json" (print (obj manifest))
    ∷ a_dir "opt/t6-kvm/releases"
    ∷ a_dir "opt/t6-kvm/releases/r1"
    ∷ a_file "opt/t6-kvm/releases/r1/release.json" release_json
    ∷ a_dir "opt/t6-kvm/releases/r2"
    ∷ a_file "opt/t6-kvm/releases/r2/release.json" release_json
    ∷ (current, link false (codes "releases" ∷ codes "r1" ∷ []))
    ∷ a_dir "var/lib"
    ∷ a_dir "etc/t6-kvm"
    ∷ a_file "etc/t6-kvm/.t6-owned" (codes "t6-kvm")
    ∷ a_file "etc/t6-kvm/main.yaml" (codes "x")
    ∷ a_file "etc/systemd/system/t6-kvmd.service" (codes "A")
    ∷ a_file "etc/systemd/system/t6-kvmd-vnc.service" (codes "B")
    ∷ []

abbrev stage_files : List (String × String)
stage_files =
    ("bin/t6-capture", "c")
    ∷ ("bin/t6-kvmd", "d")
    ∷ ("bin/t6-kvmd-vnc", "v")
    ∷ ("venv/bin/python", "p")
    ∷ ("systemd/t6-kvmd.service", "A")
    ∷ ("systemd/t6-kvmd-vnc.service", "B2")
    ∷ []

abbrev built : List ℕ
built = print (
    obj (field (codes "project") (str project) (field (codes "kvmd_commit") (str kvmd_commit) end)))

abbrev sums_of : List (String × String) → Fields
sums_of [] = field (codes "release.json") (str built) end
sums_of ((name, content) ∷ files) = field (codes name) (str (codes content)) (sums_of files)

abbrev stage_nodes : List (String × String) → Nodes
stage_nodes [] =
    a_dir "srv/s"
    ∷ a_dir "srv/s/bin"
    ∷ a_dir "srv/s/systemd"
    ∷ a_dir "srv/s/venv"
    ∷ a_dir "srv/s/venv/bin"
    ∷ a_file "srv/s/release.json" built
    ∷ a_file "srv/s/stage-sha256.json" (print (obj (sums_of stage_files)))
    ∷ []
stage_nodes ((name, content) ∷ files) =
    (place "srv/s" ++ place name, file (codes content) 1000 1000 0o664) ∷ stage_nodes files

abbrev toy_world : World
toy_world = record { nodes = toy_nodes; made = 0; commands = [] }

-- A second one with a built release.
abbrev stage_world : World
stage_world = record toy_world { nodes = stage_nodes stage_files ++ toy_nodes }

abbrev a_file_saved : Regular
a_file_saved = record { content = codes "old"; uid = 0; gid = 990; mode = 0o640 }

abbrev main_yaml : Location
main_yaml = place "etc/t6-kvm/main.yaml"

abbrev saved_at : Location
saved_at = below backups (codes "t6-kvm.x.1.json")

-- A third one with a record of a file.
abbrev saved_world : World
saved_world = record toy_world {
  nodes =
      a_dir "root"
      ∷ (backups, dir 0 0o700)
      ∷ (saved_at, file (print (obj (record_of toy_host main_yaml a_file_saved 1))) 0 0 0o600)
      ∷ toy_nodes;
}

deployed : (deploy toy_host (none ∷ []) toy_world).1 ≡ ok tt
unfolding decimal parse dec_v dec_f dec_i print enc_v enc_f enc_i size_v size_f size_i resolve
    resolve_on stat no_symlink read check_owned checked_config_path atomic make_owned owned_dir
    read_object read_manifest resolve_release ensure_stopped rotate backup_file put_back
    restore_record restore set_current save_manifest switch_release rollback check_unit
    unit_conflicts check_sum check_sums check_stage owned_if add_account copy_all give_all copy_tree
    prepare put_units install_on install_from install_stage install pure raise look from raise_if
    ◌>>=◌ set unset rename run finally
deployed = refl

installed : (install toy_host true (place "srv/s") (codes "r3") true stage_world).1 ≡ ok tt
unfolding decimal parse dec_v dec_f dec_i print enc_v enc_f enc_i size_v size_f size_i resolve
    resolve_on stat no_symlink read check_owned checked_config_path atomic make_owned owned_dir
    read_object read_manifest resolve_release ensure_stopped rotate backup_file put_back
    restore_record restore set_current save_manifest switch_release rollback check_unit
    unit_conflicts check_sum check_sums check_stage owned_if add_account copy_all give_all copy_tree
    prepare put_units install_on install_from install_stage install pure raise look from raise_if
    ◌>>=◌ set unset rename run finally
installed = refl

restored : (restore toy_host (some (true, saved_at)) true saved_world).1 ≡ ok tt
unfolding decimal parse dec_v dec_f dec_i print enc_v enc_f enc_i size_v size_f size_i resolve
    resolve_on stat no_symlink read check_owned checked_config_path atomic make_owned owned_dir
    read_object read_manifest resolve_release ensure_stopped rotate backup_file put_back
    restore_record restore set_current save_manifest switch_release rollback check_unit
    unit_conflicts check_sum check_sums check_stage owned_if add_account copy_all give_all copy_tree
    prepare put_units install_on install_from install_stage install pure raise look from raise_if
    ◌>>=◌ set unset rename run finally
restored = refl

toy_base : is_some (stat stage_world.nodes base) ≡ true
unfolding decimal parse dec_v dec_f dec_i print enc_v enc_f enc_i size_v size_f size_i resolve
    resolve_on stat no_symlink read check_owned checked_config_path atomic make_owned owned_dir
    read_object read_manifest resolve_release ensure_stopped rotate backup_file put_back
    restore_record restore set_current save_manifest switch_release rollback check_unit
    unit_conflicts check_sum check_sums check_stage owned_if add_account copy_all give_all copy_tree
    prepare put_units install_on install_from install_stage install pure raise look from raise_if
    ◌>>=◌ set unset rename run finally
toy_base = refl

saved_there :
    IsFile
      (stat saved_world.nodes saved_at)
      (print (obj (record_of toy_host main_yaml a_file_saved 1)))
unfolding decimal parse dec_v dec_f dec_i print enc_v enc_f enc_i size_v size_f size_i resolve
    resolve_on stat no_symlink read check_owned checked_config_path atomic make_owned owned_dir
    read_object read_manifest resolve_release ensure_stopped rotate backup_file put_back
    restore_record restore set_current save_manifest switch_release rollback check_unit
    unit_conflicts check_sum check_sums check_stage owned_if add_account copy_all give_all copy_tree
    prepare put_units install_on install_from install_stage install pure raise look from raise_if
    ◌>>=◌ set unset rename run finally
saved_there = (0, 0, 0o600, refl)

link_shown : Shows toy_host toy_world (codes "r1") (str (codes "r2"))
link_shown = record {
  linked = refl;
  manifest = manifest;
  saved = (0, 0, 0o600, refl);
  now = refl;
  last = refl;
}

deploy-steps_example :
    (pair : Pair) × (steps (none ∷ []) (codes "r1", some (codes "r2")) ≡ some pair)
    × Shows toy_host (deploy toy_host (none ∷ []) toy_world).0 pair.0 (value_of pair.1)
deploy-steps_example =
    deploy-steps toy_host (none ∷ []) (codes "r1") (some (codes "r2")) toy_world parse-print
      link_shown (ended (deploy toy_host (none ∷ []) toy_world) deployed)

rollback-IsSafe_example :
    (node_at main_yaml (rollback failing_host none true toy_world).0.nodes
      ≡ some (file (codes "x") 0 0 0o600))
    × IsSafe failing_host toy_world (rollback failing_host none true toy_world).0
rollback-IsSafe_example = rollback-IsSafe failing_host none true toy_world main_yaml refl

uninstall-IsKept_example :
    IsKept toy_host toy_world
      (uninstall toy_host true toy_world).0
      (unit_file (codes "t6-kvmd.service"))
uninstall-IsKept_example =
    uninstall-IsKept toy_host true toy_world (unit_file (codes "t6-kvmd.service"))

install-etc_example :
    node_at main_yaml
      (install failing_host true (place "srv/s") (codes "r3") true stage_world).0.nodes
    ≡ some (file (codes "x") 0 0 0o600)
install-etc_example =
    install-etc failing_host true (place "srv/s") (codes "r3") true stage_world main_yaml toy_base
      refl

install-IsInstalled_example :
    IsInstalled toy_host true
      (place "srv/s")
      (codes "r3")
      stage_world
      (install toy_host true (place "srv/s") (codes "r3") true stage_world).0
install-IsInstalled_example =
    install-IsInstalled toy_host true (place "srv/s") (codes "r3") stage_world
      (ended (install toy_host true (place "srv/s") (codes "r3") true stage_world) installed)

abbrev dry_args : Args
dry_args = record {
  operation = roll_back;
  stage = none;
  release = some (codes "r2");
  location = none;
  apply = false;
}

main_dry_example : (main toy_host dry_args toy_world).0 ≡ toy_world
main_dry_example = main_dry toy_host dry_args toy_world (inl refl)

restore-record_example :
    node_at main_yaml (restore toy_host (some (true, saved_at)) true saved_world).0.nodes
    ≡ some (file (codes "old") 0 990 0o640)
restore-record_example =
    restore-record toy_host main_yaml saved_at a_file_saved 1 saved_world parse-print refl refl refl
      saved_there (ended (restore toy_host (some (true, saved_at)) true saved_world) restored)
