-- ===== src/Panel/Saved.antt =====
-- What `update` of src/t6_kvm/panel.py leaves behind, when it saves.
use nanopc_t6_kvm.Base.{
  ℕ, ◌≤◌, ◌≡◌, ◌⊎◌, Bool, true, false, not, List, [], ◌∷◌, ◌++◌, Option, none, some, length,
  list_eq,
}
use nanopc_t6_kvm.Value.{Value, Fields, obj}
use nanopc_t6_kvm.Panel.Settings.{newline, read_bitrate}
use nanopc_t6_kvm.Panel.Backups.{is_own, select}
use nanopc_t6_kvm.Panel.Backups.Spared.{Distinct}
use nanopc_t6_kvm.Panel.Update.{
  continuous_updates_enabled, mode_object, Libraries, Files, Panel, settings, Change, change,
  writes, write_all,
}

-- What the source relies on: a password that was set is accepted, one that was not is not, for a name
-- that was deleted, and other names are not touched; and JSON reads back what it printed.
pub record IsLibraries (h : Libraries) : Type 0 where
  pub accepted : (u p : List ℕ) (t : h.Table) → h.check u p (h.set_password u p t) ≡ true
  pub deleted : (u p : List ℕ) (t : h.Table) → h.check u p (h.delete u t) ≡ false
  pub apart :
      (u v p q : List ℕ) (t : h.Table)
      → list_eq u v ≡ false
      → h.check v q (h.set_password u p t) ≡ h.check v q t
  pub reads : (b : Bool) → h.loads (h.print (mode_object b)) ≡ some (mode_object b)

module _ (h : Libraries) where
  -- The accounts behind a change: those of before, where no password was given, else the new one, which
  -- is the VNC password, too. A name that was changed is not accepted any more.
  pub data IsAccount (me : List ℕ) (c : Change) (old new : Files h.Table) : Type 0 where
    same_account :
        c.password ≡ []
        → c.user ≡ me
        → new.htpasswd ≡ old.htpasswd
        → new.vncpasswd ≡ old.vncpasswd
        → IsAccount me c old new
    new_account :
        h.check c.user c.password new.htpasswd ≡ true
        → new.vncpasswd ≡ some (c.password ++ (newline ∷ []))
        → ((c.user ≡ me) ⊎ ((q : List ℕ) → h.check me q new.htpasswd ≡ false))
        → IsAccount me c old new

  -- A change was asked for and is in the files.
  pub record IsSaved (me : List ℕ) (body : Option Value) (p q : Panel h.Table) : Type 0 where
    pub fields : Fields
    pub asked : Change
    pub sent : body ≡ some (obj fields)
    pub valid : change me fields ≡ some asked
    pub idle : p.tasks ≡ []
    pub bitrate : read_bitrate q.files.streamer_toml ≡ some asked.bitrate
    pub mode : settings h q.files ≡ some (mode_object asked.continuous)
    pub sessions : continuous_updates_enabled h q.files ≡ some asked.continuous
    pub account : IsAccount me asked p.files q.files
    pub two_left : length (select is_own q.backups) ≤ 2
    pub others_kept :
        select (λ e. not (is_own e)) q.backups ≡ select (λ e. not (is_own e)) p.backups
    pub distinct : Distinct q.backups

  -- The files after all the writes.
  abbrev all_written : List ℕ → Change → Files h.Table → Files h.Table
  all_written me c fs = (write_all h none (writes h me c) fs).0
