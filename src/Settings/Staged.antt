-- ===== src/Settings/Staged.antt =====
-- The staging of the configuration in frontend/src/screens/Settings.tsx: edits, `save` with its two
-- calls, `reload` with its question and its answer, and what else on this screen changes the
-- configuration of the backend: the theme, a new token and an import. The backend is the
-- configuration that it has.
pub mod Runs
pub mod Stores
pub mod Clean
pub mod Unsaved
use proxyforward.Common.{
  ℕ, zero, suc, Bool, true, false, not, ◌&&◌, ◌||◌, Option, none, some, List, [], ◌∷◌, ◌++◌,
}
use proxyforward.Common.Tests.{if◌then◌else◌}
use proxyforward.Common.Decimal.{Text, codes, text_eq}
use proxyforward.Settings.{Config, folded}

-- Where a save stands: it waits for SaveSettings, or for RestartEngine.
pub data Save : Type 0 where
  idle : Save
  sending : Config → Save
  restarting : Save

pub record Settings : Type 0 where
  pub cfg : Option Config
  pub dirty : Bool
  pub saving : Bool
  pub err : Text
  pub note : Text
  pub attached : Bool
  pub save : Save
  pub stored : Config
  -- The calls of `GetConfig` that the backend has not answered, and the answers under way
  pub asked : ℕ
  pub answers : List Config

unfoldable pub mount : Bool → Config → Settings
mount attached stored = record {
  cfg = none;
  dirty = false;
  saving = false;
  err = [];
  note = [];
  attached = attached;
  save = idle;
  stored = stored;
  asked = 1;
  answers = [];
}

-- `reload`, which is also "Discard", and what follows a new token or an import
unfoldable pub reload : Settings → Settings
reload s = record s { asked = suc s.asked }

abbrev pub answer_with : ℕ → Settings → Settings
answer_with zero s = s
answer_with (suc n) s = record s { asked = n; answers = s.answers ++ s.stored ∷ [] }

-- The backend answers a call of `GetConfig`.
unfoldable pub get_config : Settings → Settings
get_config s = answer_with s.asked s

-- An answer comes, and others are still under way.
unfoldable pub reloaded : List Config → Config → Settings → Settings
reloaded rest c s = record s { cfg = some c; dirty = false; answers = rest }

abbrev pub fail_reload : ℕ → Text → Settings → Settings
fail_reload zero e s = s
fail_reload (suc n) e s = record s { err = e; asked = n }

unfoldable pub reload_failed : Text → Settings → Settings
reload_failed e s = fail_reload s.asked e s

-- `patch`: without a configuration there is no field.
abbrev pub patch_to : Option Config → Settings → Settings
patch_to none s = s
patch_to (some c) s = record s { cfg = some c; dirty = true; note = [] }

abbrev pub changed : (Config → Config) → Option Config → Option Config
changed f none = none
changed f (some c) = some (f c)

unfoldable pub patch : (Config → Config) → Settings → Settings
patch f s = patch_to (changed f s.cfg) s

-- "Save & apply", which is there when something is staged, and disabled while a save runs
abbrev pub send : Option Config → Settings → Settings
send none s = s
send (some c) s = record s { saving = true; err = []; note = []; save = sending (folded c) }

unfoldable pub save_clicked : Settings → Settings
save_clicked s = if s.dirty && not s.saving then send s.cfg s else s

-- The end of a save that the backend has taken
unfoldable pub finish : Settings → Settings
finish s = record s {
  dirty = false;
  saving = false;
  note = codes "Saved. The engine reconnected with the new settings.";
  save = idle;
}

-- SaveSettings returns.
abbrev pub sent : Save → Settings → Settings
sent idle s = s
sent restarting s = s
sent (sending out) s =
    let t : Settings = record s { cfg = some out; stored = out } in
    if s.attached then finish t else record t { save = restarting }

unfoldable pub saved : Settings → Settings
unfolding finish
saved s = sent s.save s

-- SaveSettings has refused the configuration.
abbrev pub refuse : Save → Text → Settings → Settings
refuse idle e s = s
refuse restarting e s = s
refuse (sending out) e s = record s { err = e; saving = false; save = idle }

unfoldable pub refused : Text → Settings → Settings
refused e s = refuse s.save e s

-- SaveSettings has taken the configuration but could not write it: the backend keeps it.
abbrev pub keep_unwritten : Save → Text → Settings → Settings
keep_unwritten idle e s = s
keep_unwritten restarting e s = s
keep_unwritten (sending out) e s = record s { err = e; saving = false; save = idle; stored = out }

unfoldable pub unwritten : Text → Settings → Settings
unwritten e s = keep_unwritten s.save e s

-- RestartEngine returns.
abbrev pub restart : Save → Settings → Settings
restart idle s = s
restart (sending out) s = s
restart restarting s = finish s

unfoldable pub restarted : Settings → Settings
unfolding finish
restarted s = restart s.save s

abbrev pub fail_restart : Save → Text → Settings → Settings
fail_restart idle e s = s
fail_restart (sending out) e s = s
fail_restart restarting e s = finish (record s { err = e })

unfoldable pub restart_failed : Text → Settings → Settings
unfolding finish
restart_failed e s = fail_restart s.save e s

-- What the screen shows below the sections
unfoldable pub shown_note : Settings → Text
shown_note s = if s.dirty then [] else s.note

-- A choice of the theme row, which SetTheme stores at once
unfoldable pub set_theme : Text → Settings → Settings
set_theme theme s = record s {
  stored = record s.stored { ui = record s.stored.ui { theme = theme } };
}

abbrev pub new_token : Text → Settings → Settings
new_token token s = record s {
  stored = record s.stored { gateway = record s.stored.gateway { token = token } };
}

-- "Rotate": `RegenerateToken` puts a new token into the configuration and writes it. When it cannot
-- write it, it keeps it, and nothing is read again.
unfoldable pub rotated : Bool → Text → Settings → Settings
unfolding reload
rotated written token s =
    if s.attached || not (text_eq s.stored.role (codes "gateway"))
    then s
    else if written
    then reload (new_token token s)
    else new_token token s

-- "Import": `ImportSetup` puts the configuration of a file in the place of the one that there is. One
-- that is refused changes nothing.
unfoldable pub imported : Config → Settings → Settings
unfolding reload
imported c s = if s.attached then s else reload (record s { stored = c })
