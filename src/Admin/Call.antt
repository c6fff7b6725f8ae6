-- ===== src/Admin/Call.antt =====
-- The calls of tools/admin.py: they change a world, of which each change may fail, and may raise.
pub mod Spares
pub mod Reads
pub mod Removes
use nanopc_t6_kvm.Base.{ℕ, ◌+◌, Bool, List, [], ◌∷◌, ◌++◌, Option, if◌then◌else◌, Result, ok, err}
use nanopc_t6_kvm.Value.{Value, Json}
use nanopc_t6_kvm.Admin.{Location, Node, Nodes, put, delete}

-- `made` counts the calls that change something, and `commands` are those of other programs.
pub record World : Type 0 where
  pub nodes : Nodes
  pub made : ℕ
  pub commands : List (List (List ℕ))

-- What the tool is told by the host, and the libraries that it uses. `fails` says which of the calls that
-- change something fail, by their number; `active` is what systemctl prints for a unit, and `time_ns` the
-- clock at a call's number.
pub record Host : Type 0 where
  pub fails : ℕ → Bool
  pub time_ns : ℕ → ℕ
  pub pid : ℕ
  pub euid : ℕ
  pub egid : ℕ
  pub active : List ℕ → List ℕ
  -- The links that `systemctl disable` removes for a unit.
  pub wants : List ℕ → List Location
  pub cwd : Location
  -- Whether there is an account or a group of the project's name, and the group's number.
  pub taken : Bool
  pub group_id : Option ℕ
  pub json : Json
  -- `json.dumps(value,indent=2)+"\n"`
  pub print : Value → List ℕ
  -- The digest of a content in hexadecimal digits.
  pub sha256 : List ℕ → List ℕ
  pub encode64 : List ℕ → List ℕ
  pub decode64 : List ℕ → Option (List ℕ)

pub data AdminError : Type 0 where
  symlink foreign unsafe missing bad_path not_regular : AdminError
  running bad_manifest bad_release bad_stage conflict pending exists account not_root : AdminError
  no_argument no_previous gadget_active bad_json no_object key_error os_error : AdminError

abbrev pub Do : Type 0 → Type 0
Do A = World → World × Result AdminError A

module _ {A : Type 0} where
  unfoldable pub pure : A → Do A
  pure a w = (w, ok a)

  unfoldable pub raise : AdminError → Do A
  raise e w = (w, err e)

  -- What is read of the world.
  unfoldable pub look : (World → A) → Do A
  look f w = (w, ok (f w))

  unfoldable pub from : Result AdminError A → Do A
  from r w = (w, r)

unfoldable pub raise_if : Bool → AdminError → Do (Unit {0})
raise_if b e w = (w, if b then err e else ok tt)

module _ {A B : Type 0} where
  abbrev pub go_on : World × Result AdminError A → (A → Do B) → World × Result AdminError B
  go_on (w, ok a) next = next a w
  go_on (w, err e) next = (w, err e)

  infixl 10 ◌>>=◌ ◌>>◌
  unfoldable pub ◌>>=◌ : Do A → (A → Do B) → Do B
  unfolding pure raise look from raise_if
  ◌>>=◌ call next w = go_on (call w) next

  abbrev pub ◌>>◌ : Do A → Do B → Do B
  call >> next = call >>= λ _. next

module _ (h : Host) where
  -- A change, unless it fails.
  abbrev pub change : (World → World) → Do (Unit {0})
  change f w =
      let counted = record w { made = w.made + 1 } in
      if h.fails w.made then (counted, err os_error) else (f counted, ok tt)

  -- One node is put at a location, in place of what was there.
  unfoldable pub set : Location → Node → Do (Unit {0})
  set l n = change (λ w. record w { nodes = put l n w.nodes })

  unfoldable pub unset : Location → Do (Unit {0})
  unset l = change (λ w. record w { nodes = delete l w.nodes })

  -- `os.replace`
  unfoldable pub rename : Location → Location → Node → Do (Unit {0})
  rename from_l to_l n = change (λ w. record w { nodes = put to_l n (delete from_l w.nodes) })

  -- `subprocess.run(argv,check=True)`
  unfoldable pub run : List (List ℕ) → Do (Unit {0})
  run argv = change (λ w. record w { commands = w.commands ++ (argv ∷ []) })

-- `try`: `last`, in any case; an error of `last` is the error of both.
abbrev pub finally_ends :
    {A : Type 0} → Do (Unit {0}) → World × Result AdminError A → World × Result AdminError A
finally_ends last (w, r) = go_on (last w) (λ _ v. (v, r))

unfoldable pub finally : {A : Type 0} → Do A → Do (Unit {0}) → Do A
finally call last w = finally_ends last (call w)
