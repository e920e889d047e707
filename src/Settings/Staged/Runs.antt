-- ===== src/Settings/Staged/Runs.antt =====
-- The runs of the settings screen (frontend/src/screens/Settings.tsx) with the backend.
use proxyforward.Common.{List, [], ◌∷◌, ◌++◌, ◌≡◌, Bool, true, false}
use proxyforward.Common.Decimal.{Text}
use proxyforward.Settings.{Config}
use proxyforward.Settings.Staged.{
  Settings, mount, reload, get_config, reloaded, reload_failed, rotated, imported, patch,
  save_clicked, saved, refused, unwritten, restarted, restart_failed, set_theme,
}

-- The screen, and whether a configuration has been imported that no answer has brought yet
pub record World : Type 0 where
  pub screen : Settings
  pub unread : Bool

abbrev pub on : (Settings → Settings) → World → World
on f w = record w { screen = f w.screen }

-- What may happen. An edit is made only while no save runs; a write fails only while the changes that
-- were saved have not been discarded; and a save or an import reaches the backend only when no
-- answer to `reload` is under way.
pub data Step (w : World) : World → Type 0 where
  reloads : Step w (on reload w)
  answers : Step w (on get_config w)
  answered :
      (before : List Config) (c : Config) (rest : List Config)
      → w.screen.answers ≡ before ++ c ∷ rest
      → Step w (record { screen = reloaded (before ++ rest) c w.screen; unread = false })
  reload_fails : (e : Text) → Step w (on (reload_failed e) w)
  edits : (f : Config → Config) → w.screen.saving ≡ false → Step w (on (patch f) w)
  saves : Step w (on save_clicked w)
  stores : w.screen.answers ≡ [] → Step w (on saved w)
  refuses : (e : Text) → Step w (on (refused e) w)
  fails_to_write :
      (e : Text) → w.screen.dirty ≡ true → w.screen.answers ≡ [] → Step w (on (unwritten e) w)
  restarts : Step w (on restarted w)
  restart_fails : (e : Text) → Step w (on (restart_failed e) w)
  themes : (theme : Text) → Step w (on (set_theme theme) w)
  rotates : (written : Bool) (token : Text) → Step w (on (rotated written token) w)
  imports :
      (c : Config)
      → w.screen.attached ≡ false
      → w.screen.answers ≡ []
      → Step w (record { screen = imported c w.screen; unread = true })

abbrev pub opened : Bool → Config → World
opened attached stored = record { screen = mount attached stored; unread = false }

pub data Reach (w : World) : World → Type 0 where
  here : Reach w w
  next : {u v : World} → Reach w u → Step u v → Reach w v
