-- ===== src/Panel/Answers.antt =====
-- The ways in which `update` of src/t6_kvm/panel.py ends.
use nanopc_t6_kvm.Base.{ℕ, ◌≡◌, ◌≢◌, ◌⊎◌, true, List, [], ◌∷◌, ◌++◌, Option, none, some}
use nanopc_t6_kvm.Value.{Value, Fields, obj}
use nanopc_t6_kvm.Panel.Settings.{newline, set_bitrate, anywhere, set_yaml}
use nanopc_t6_kvm.Panel.Backups.{Entry, back_up}
use nanopc_t6_kvm.Panel.Update.{
  Libraries, Files, Panel, Response, conflict, bad_request, server_error, saved, Change,
  mode_object, set_account, change, write_all, writes, restarts_main,
}

module _ (h : Libraries) where
  -- Each file is the old one, or the one that the change asks for.
  abbrev pub IsPartly : List ℕ → Change → Files h.Table → Files h.Table → Type 0
  IsPartly me c old new =
      ((new.streamer_toml ≡ old.streamer_toml)
        ⊎ (new.streamer_toml ≡ set_bitrate c.bitrate old.streamer_toml))
      × ((new.main_yaml ≡ old.main_yaml)
          ⊎ (new.main_yaml ≡ set_yaml c.bitrate anywhere old.main_yaml))
      × ((new.panel_json ≡ old.panel_json)
          ⊎ (new.panel_json ≡ some (h.print (mode_object c.continuous))))
      × ((new.htpasswd ≡ old.htpasswd) ⊎ (new.htpasswd ≡ set_account h me c old.htpasswd))
      × ((new.vncpasswd ≡ old.vncpasswd) ⊎ (new.vncpasswd ≡ some (c.password ++ (newline ∷ []))))

  -- What each answer means: 409 and 400 change nothing, and stand for a restart that is under way and for a
  -- request that is not valid; an exception starts no restart, and leaves each file old or as it was asked for,
  -- where the request was valid; and behind 200 the change was valid, with a restart under way.
  pub data IsOutcome (now : ℕ) (me : List ℕ) (body : Option Value) (p : Panel h.Table)
      : Panel h.Table × Response → Type 0 where
    busy : (p.tasks ≢ []) → IsOutcome now me body p (p, conflict)
    invalid :
        (d : Fields)
        → p.tasks ≡ []
        → body ≡ some (obj d)
        → change me d ≡ none
        → IsOutcome now me body p (p, bad_request)
    unreadable :
        p.tasks ≡ []
        → ((d : Fields) → body ≢ some (obj d))
        → IsOutcome now me body p (p, server_error)
    broken :
        (d : Fields) (c : Change) (fs : Files h.Table) (backups : List (Entry (Files h.Table)))
        → p.tasks ≡ []
        → body ≡ some (obj d)
        → change me d ≡ some c
        → IsPartly me c p.files fs
        → IsOutcome now me body p (record p { files = fs; backups = backups }, server_error)
    written :
        (d : Fields) (c : Change) (fs : Files h.Table) (backups : List (Entry (Files h.Table)))
        → p.tasks ≡ []
        → body ≡ some (obj d)
        → change me d ≡ some c
        → back_up now p.files p.backups ≡ some backups
        → write_all h none (writes h me c) p.files ≡ (fs, true)
        → IsOutcome now me body p (
          record { files = fs; backups = backups; tasks = restarts_main h c p.files ∷ [] },
          saved,
        )
