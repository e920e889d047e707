-- ===== src/Commands.antt =====
-- frontend/src/commands.tsx: the palette's commands, their gates, and the fuzzy scorer. A command's
-- action is named by its constructor; its icon is only rendered, and is left out.
pub mod Fuzzy
use Prim.Native.String.{String}
use text.Mathlib.Text.{◌==◌ as str_eq}
use proxyforward.Common.{
  ℕ, zero, suc, ◌+◌, ◌-◌, ◌*◌, Bool, true, false, not, ◌&&◌, ◌||◌, Option, none, some, List, [],
  ◌∷◌, ◌++◌, map,
}
use proxyforward.Common.Tests.{leb, ◌==◌, if◌then◌else◌}
use proxyforward.Common.Lists.{length, get_elem?, filter}
use proxyforward.Common.Decimal.{Text, codes}
use proxyforward.Common.Texts.{is_space}
use proxyforward.Common.Int.{ℤ, pos, negsuc, sub_ℕ}
use proxyforward.Status.{Status}
use proxyforward.Nav.{NavId, NavItem, nav_for}

pub data Section : Type 0 where
  navigate appearance actions : Section

-- The `when` of a command, by the condition that it tests.
pub data Gate : Type 0 where
  always can_pair has_public_ip has_peer has_engine : Gate

-- The `run` of a command.
pub data Action : Type 0 where
  go_to : NavId → Action
  theme_light theme_dark theme_system : Action
  copy_pairing copy_public_ip copy_peer restart_engine export_diagnostics open_config : Action

-- `Command`; no hint is the empty text, as in `c.hint ?? ''`.
pub record Command : Type 0 where
  pub title : Text
  pub hint : Text
  pub kbd : Option Text
  pub section : Section
  pub gate : Gate
  pub run : Action

-- One round of the `map` of `navCommands`.
abbrev pub nav_command : NavItem → Command
nav_command n = record {
  title = codes "Go to " ++ codes n.label;
  hint = [];
  kbd = some (codes "Ctrl " ++ n.shortcut);
  section = navigate;
  gate = always;
  run = go_to n.id;
}

-- `navCommands`
unfoldable pub nav_commands : String → List Command
nav_commands role = map nav_command (nav_for role)

abbrev pub command : String → String → Section → Gate → Action → Command
command title hint section gate run = record {
  title = codes title;
  hint = codes hint;
  kbd = none;
  section = section;
  gate = gate;
  run = run;
}

-- `COMMANDS`
abbrev pub commands : List Command
commands =
    command "Theme: Light" "" appearance always theme_light
    ∷ command "Theme: Dark" "" appearance always theme_dark
    ∷ command "Theme: System" "Follow Windows" appearance always theme_system
    ∷ command "Copy pairing code" "Hand to your agent" actions can_pair copy_pairing
    ∷ command "Copy public address" "" actions has_public_ip copy_public_ip
    ∷ command "Copy peer address" "" actions has_peer copy_peer
    ∷ command "Restart engine" "Reconnects with current settings" actions has_engine restart_engine
    ∷ command "Export diagnostics" "Redacted support bundle" actions always export_diagnostics
    ∷ command "Open config folder" "" actions always open_config
    ∷ []

-- The `when` functions of `COMMANDS`.
unfoldable pub passes : Status → Gate → Bool
passes s always = true
passes s can_pair = str_eq s.role "gateway" && str_eq s.mode "engine"
passes s has_public_ip = not (str_eq s.public_ip "")
passes s has_peer = not (str_eq s.peer_addr "")
passes s has_engine = str_eq s.mode "engine"

-- `t.indexOf(ch, ti)`, by the text from ti on: the distance from ti.
unfoldable pub index_of : ℕ → Text → Option ℕ
index_of ch [] = none
index_of ch (c ∷ cs) =
    if c == ch then some 0 else elim (index_of ch cs) [ none ↦ none | some k ↦ some (suc k) ]

-- `at === 0 || t[at - 1] === ' ' || t[at - 1] === ':'`
abbrev pub word_start : Text → ℕ → Bool
word_start t zero = true
word_start t (suc k) = elim (get_elem? t k) [ none ↦ false | some c ↦ c == b' ' || c == b':' ]

abbrev pub drop : ℕ → Text → Text
drop zero cs = cs
drop (suc n) [] = []
drop (suc n) (c ∷ cs) = drop n cs

-- The loop of `fuzzyScore`: the total of the bonuses, and none where it returns -1.
unfoldable pub score_from : Text → ℕ → ℕ → ℕ → Text → Option ℕ
score_from t ti total streak [] = some total
score_from t ti total streak (ch ∷ q) = elim (index_of ch (drop ti t)) [
  | none ↦ none
  | some k ↦
      let streak' = if k == 0 then streak + 1 else 1 in
      score_from t (ti + k + 1) (total + (streak' * 2 + (if word_start t (ti + k) then 3 else 0)))
        streak' q
]

-- `query.toLowerCase().replace(/\s+/g, '')`, with `toLowerCase` given
abbrev pub needle : (Text → Text) → Text → Text
needle lower query = filter (λ c. not (is_space c)) (lower query)

-- `fuzzyScore` for the prepared texts, in hundredths: `total - t.length * 0.01`.
unfoldable pub score_of : Text → Text → ℤ
score_of t [] = pos 0
score_of t (ch ∷ q) = elim (score_from t 0 0 0 (ch ∷ q)) [
  | none ↦ negsuc 99
  | some total ↦ sub_ℕ (100 * total) (length t)
]

-- `fuzzyScore`
unfoldable pub fuzzy_score : (Text → Text) → Text → Text → ℤ
fuzzy_score lower text query = score_of (lower text) (needle lower query)
