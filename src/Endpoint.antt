-- ===== src/Endpoint.antt =====
-- `OwnedSocket` of src/t6_kvm/daemon.py: a Unix socket with its endpoint in the file system, where other
-- processes may act between any two calls.
pub mod Foreign
use nanopc_t6_kvm.Base.{
  ℕ, Bool, true, false, ◌||◌, not, Option, none, some, ◌==◌, if◌then◌else◌, has_bit, Result, ok,
  err,
}

-- The directory of the endpoint, and what stands at the endpoint's path: the pair of `st_dev` and
-- `st_ino` as one number. A symbolic link stands there as well, also one that leads nowhere.
pub record World : Type 0 where
  pub euid : ℕ
  pub parent_uid : ℕ
  pub parent_mode : ℕ
  pub entry : Option ℕ

pub data Sock : Type 0 where
  open_sock closed_sock : Sock

pub record OwnedSocket : Type 0 where
  pub sock : Option Sock
  pub identity : Option ℕ

-- `__init__`
abbrev pub fresh_socket : OwnedSocket
fresh_socket = record { sock = none; identity = none }

-- What other processes make of the path between two calls: nothing, or what then stands there.
abbrev pub Between : Type 0
Between = Option (Option ℕ)

abbrev pub acted : Between → Option ℕ → Option ℕ
acted none entry = entry
acted (some e) entry = e

-- What the system calls of one `bind` do: what another process puts at the path behind the test that
-- it is free, the inode that is made, what others do before `lstat`, before `close` and before its
-- `unlink`, and whether a call fails.
pub record Calls : Type 0 where
  pub intruder : Option ℕ
  pub inode : ℕ
  pub before_lstat : Between
  pub before_close : Between
  pub before_unlink : Between
  pub bind_fails : Bool
  pub chmod_fails : Bool
  pub listen_fails : Bool

pub data BindError : Type 0 where
  permission_error file_exists os_error : BindError

abbrev pub is_some : {A : Type 0} → Option A → Bool
is_some none = false
is_some (some a) = true

abbrev pub close_sock : Option Sock → Option Sock
close_sock none = none
close_sock (some s) = some closed_sock

-- `(s.st_dev,s.st_ino) == self.identity`
abbrev pub is_own : ℕ → Option ℕ → Bool
is_own i none = false
is_own i (some j) = i == j

-- `unlink` takes away what stands there, also what has come there behind `lstat`.
abbrev pub unlinked : Option ℕ → Option ℕ
unlinked entry = none

abbrev pub unlink_own : Between → Option ℕ → Option ℕ → Option ℕ
unlink_own others none identity = acted others none
unlink_own others (some i) identity =
    if is_own i identity then unlinked (acted others (some i)) else acted others (some i)

abbrev pub Owned : Type 0
Owned = World × OwnedSocket

-- `lstat` and `unlink`, with what others do between them.
unfoldable pub close : Between → Owned → Owned
close others (w, s) = (
  record w { entry = unlink_own others w.entry s.identity },
  record s { sock = close_sock s.sock },
)

-- `st_mode & 0o022`
abbrev pub others_write : ℕ → Bool
others_write mode = has_bit mode 1 || has_bit mode 4

abbrev pub Bound : Type 0
Bound = Owned × Result BindError (Unit {0})

-- The `except` clause.
abbrev pub bind_failed : Calls → Owned → Bound
unfolding close
bind_failed c (w, s) =
    (close c.before_unlink (record w { entry = acted c.before_close w.entry }, s), err os_error)

-- Behind `lstat`, which has given the identity.
abbrev pub bind_made : Calls → Owned → Bound
unfolding close
bind_made c o = if c.chmod_fails || c.listen_fails then bind_failed c o else (o, ok tt)

-- `lstat`, by what stands at the path then: the endpoint that was made, or what others have put there.
abbrev pub bind_seen : Calls → Option ℕ → Owned → Bound
unfolding close
bind_seen c none (w, s) = bind_failed c (record w { entry = none }, s)
bind_seen c (some i) (w, s) =
    bind_made c (record w { entry = some i }, record s { identity = some i })

-- The path as the system call finds it.
abbrev pub at_bind : Option ℕ → Option ℕ → Option ℕ
at_bind none entry = entry
at_bind (some i) entry = some i

-- From the system call on.
abbrev pub bind_now : Calls → Owned → Bound
unfolding close
bind_now c o =
    if c.bind_fails || is_some (o.0).entry
    then bind_failed c o
    else bind_seen c (acted c.before_lstat (some c.inode)) o

-- From `socket.socket` on.
abbrev pub bind_free : Calls → Owned → Bound
unfolding close
bind_free c (w, s) =
    bind_now c (record w { entry = at_bind c.intruder w.entry }, record s { sock = some open_sock })

unfoldable pub bind : Calls → Owned → Bound
unfolding close
bind c (w, s) =
    if not (w.parent_uid == w.euid) || others_write w.parent_mode
    then ((w, s), err permission_error)
    else if is_some w.entry
    then ((w, s), err file_exists)
    else bind_free c (w, s)
