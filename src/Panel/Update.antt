-- ===== src/Panel/Update.antt =====
-- The handler `update` of src/t6_kvm/panel.py, and what `status` reads of the settings.
use nanopc_t6_kvm.Base.{
  ℕ, zero, suc, Bool, true, false, ◌&&◌, ◌||◌, not, List, [], ◌∷◌, ◌++◌, Option, none, some, leb,
  ◌==◌, if◌then◌else◌, length, list_eq,
}
use nanopc_t6_kvm.Broker.{codes}
use nanopc_t6_kvm.Value.{Value, Fields, end, field, get, pos, obj, str, int, boolean}
use nanopc_t6_kvm.Panel.Settings.{newline, set_bitrate, anywhere, set_yaml}
use nanopc_t6_kvm.Panel.Backups.{Entry, back_up}

-- What the panel calls: `KvmdHtpasswdFile` of KVMD, and Python's json.
pub record Libraries : Type 1 where
  pub Table : Type 0
  pub delete : List ℕ → Table → Table
  pub set_password : List ℕ → List ℕ → Table → Table
  -- `check_password`; `false` as well where it raises a `ValueError`.
  pub check : List ℕ → List ℕ → Table → Bool
  -- `json.loads`; `none` is a `ValueError`.
  pub loads : List ℕ → Option Value
  -- `json.dumps`
  pub print : Value → List ℕ

-- The files of /etc/t6-kvm.
pub record Files (T : Type 0) : Type 0 where
  pub streamer_toml : List ℕ
  pub main_yaml : List ℕ
  pub htpasswd : T
  pub vncpasswd : Option (List ℕ)
  pub panel_json : Option (List ℕ)

-- `tasks` is TASKS, where a restart stands with its argument `main`.
pub record Panel (T : Type 0) : Type 0 where
  pub files : Files T
  pub backups : List (Entry (Files T))
  pub tasks : List Bool

-- The answers 409, 400, 500 (an exception that `update` does not catch) and 200.
pub data Response : Type 0 where
  conflict bad_request server_error saved : Response

-- `{"continuous":continuous}`
abbrev pub mode_object : Bool → Value
mode_object continuous = obj (field (codes "continuous") (boolean continuous) end)

module _ (h : Libraries) where
  -- `settings()`; `none` is a ValueError.
  unfoldable pub settings : Files h.Table → Option Value
  settings fs = elim fs.panel_json [ none ↦ some (mode_object false) | some text ↦ h.loads text ]

  -- `value.get("continuous",False) is True`; `none` is the AttributeError of a value that is no object.
  abbrev pub is_on : Value → Option Bool
  is_on (obj fs) = elim (get (codes "continuous") fs) [
    | none ↦ some false
    | some (boolean b) ↦ some b
    | some v ↦ some false
  ]
  is_on v = none

  abbrev pub enabled_by : Option Value → Option Bool
  enabled_by none = some false
  enabled_by (some v) = is_on v

  -- `continuous_updates_enabled` of src/t6_kvm/vnc_transport.py, which each VNC session asks.
  unfoldable pub continuous_updates_enabled : Files h.Table → Option Bool
  continuous_updates_enabled fs = elim fs.panel_json [
    | none ↦ some false
    | some text ↦ enabled_by (h.loads text)
  ]

-- What a request asks for.
pub record Change : Type 0 where
  pub bitrate : ℕ
  pub continuous : Bool
  pub user : List ℕ
  pub password : List ℕ

abbrev pub is_empty : List ℕ → Bool
is_empty [] = true
is_empty (c ∷ cs) = false

abbrev pub each_char : (ℕ → Bool) → List ℕ → Bool
each_char test [] = true
each_char test (c ∷ cs) = test c && each_char test cs

abbrev pub within : ℕ → ℕ → ℕ → Bool
within lo hi c = leb lo c && leb c hi

-- `[a-zA-Z0-9_-]`
abbrev pub is_name_char : ℕ → Bool
is_name_char c =
    within b'a' b'z' c || within b'A' b'Z' c || within b'0' b'9' c || c == b'_' || c == b'-'

-- `re.fullmatch("[a-zA-Z0-9_-]{1,32}", user)`
abbrev pub is_username : List ℕ → Bool
is_username u = each_char is_name_char u && within 1 32 (length u)

abbrev pub is_password : List ℕ → Bool
is_password p = leb (length p) 8 && each_char (within 33 126) p

abbrev pub is_change : List ℕ → Change → Bool
is_change me c =
    within 100 20000 c.bitrate
    && (is_username c.user
        && (is_password c.password && (list_eq c.user me || not (is_empty c.password))))

-- The tests of the four values. A key that is not there and a value of another type are refused, as
-- `type(bitrate)!=int`, `type(continuous)!=bool` and `isinstance` do.
abbrev pub read_change : List ℕ → Option Value → Option Value → Option Value → Value → Option Change
read_change me (some (int (pos n))) (some (boolean b)) (some (str u)) (str p) =
    let c : Change = record { bitrate = n; continuous = b; user = u; password = p } in
    if is_change me c then some c else none
read_change me bitrate continuous user password = none

-- `d.get(key,default)`
abbrev pub get_or : List ℕ → Value → Fields → Value
get_or key default fs = elim (get key fs) [ none ↦ default | some v ↦ v ]

-- The `try` block; `none` is the answer 400.
unfoldable pub change : List ℕ → Fields → Option Change
change me d =
    read_change me (get (codes "bitrate_kbps") d) (get (codes "continuous") d)
      (get (codes "username") d) (get_or (codes "password") (str []) d)

-- The exceptions of the file system: what one that is raised while the snapshot is made leaves of the backups,
-- and the number of the writes that are made before one raises.
pub record Faults (h : Libraries) : Type 0 where
  pub backup : Option (List (Entry (Files h.Table)))
  pub write : Option ℕ

module _ (h : Libraries) where
  -- The account's new name and password.
  abbrev pub set_account : List ℕ → Change → h.Table → h.Table
  set_account me c t =
      h.set_password c.user c.password (if list_eq c.user me then t else h.delete me t)

  -- The writes from `atomic(toml,new)` on, in their order.
  abbrev pub account_writes : List ℕ → Change → List (Files h.Table → Files h.Table)
  account_writes me c =
      if is_empty c.password
      then []
      else (λ fs. record fs { htpasswd = set_account me c fs.htpasswd })
        ∷ (λ fs. record fs { vncpasswd = some (c.password ++ (newline ∷ [])) })
        ∷ []

  abbrev pub writes : List ℕ → Change → List (Files h.Table → Files h.Table)
  writes me c =
      (λ fs. record fs { streamer_toml = set_bitrate c.bitrate fs.streamer_toml })
      ∷ (λ fs. record fs { main_yaml = set_yaml c.bitrate anywhere fs.main_yaml })
      ∷ (λ fs. record fs { panel_json = some (h.print (mode_object c.continuous)) })
      ∷ account_writes me c

  -- The writes up to the one that raises, and whether all of them were made.
  abbrev pub write_all :
      Option ℕ → List (Files h.Table → Files h.Table) → Files h.Table → Files h.Table × Bool
  write_all stop [] fs = (fs, true)
  write_all none (g ∷ gs) fs = write_all none gs (g fs)
  write_all (some zero) (g ∷ gs) fs = (fs, false)
  write_all (some (suc n)) (g ∷ gs) fs = write_all (some n) gs (g fs)

  -- `main=old!=new`
  abbrev pub restarts_main : Change → Files h.Table → Bool
  restarts_main c fs = not (list_eq fs.streamer_toml (set_bitrate c.bitrate fs.streamer_toml))

  abbrev pub ended :
      Change
      → Panel h.Table
      → List (Entry (Files h.Table))
      → Files h.Table × Bool
      → Panel h.Table × Response
  ended c p backups (fs, false) = (record p { files = fs; backups = backups }, server_error)
  ended c p backups (fs, true) =
      (record { files = fs; backups = backups; tasks = restarts_main c p.files ∷ [] }, saved)

  abbrev pub on_backups :
      Option ℕ
      → List ℕ
      → Change
      → Panel h.Table
      → Option (List (Entry (Files h.Table)))
      → Panel h.Table × Response
  on_backups stop me c p none = (p, server_error)
  on_backups stop me c p (some backups) = ended c p backups (write_all stop (writes me c) p.files)

  -- The snapshot, or what an exception while it is made leaves.
  abbrev pub on_valid :
      Faults h
      → ℕ
      → List ℕ
      → Panel h.Table
      → Change
      → Option (List (Entry (Files h.Table)))
      → Panel h.Table × Response
  on_valid faults now me p c (some left) = (record p { backups = left }, server_error)
  on_valid faults now me p c none = on_backups faults.write me c p (back_up now p.files p.backups)

  abbrev pub on_change :
      Faults h → ℕ → List ℕ → Panel h.Table → Option Change → Panel h.Table × Response
  on_change faults now me p none = (p, bad_request)
  on_change faults now me p (some c) = on_valid faults now me p c faults.backup

  -- `request.json()`: `none` is its exception, and a value other than an object has no keys.
  abbrev pub on_body :
      Faults h → ℕ → List ℕ → Panel h.Table → Option Value → Panel h.Table × Response
  on_body faults now me p (some (obj d)) = on_change faults now me p (change me d)
  on_body faults now me p other = (p, server_error)

  -- `update` as one step, since it runs under LOCK. `now` is `time.time_ns()` and `me` is
  -- `request["user"]`.
  unfoldable pub update :
      Faults h → ℕ → List ℕ → Option Value → Panel h.Table → Panel h.Table × Response
  update faults now me body p = elim p.tasks [
    | [] ↦ on_body faults now me p body
    | t ∷ ts ↦ (p, conflict)
  ]

  -- `done`, when the restart is over.
  abbrev pub done : Panel h.Table → Panel h.Table
  done p = record p { tasks = [] }
