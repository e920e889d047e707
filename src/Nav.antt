-- ===== src/Nav.antt =====
-- frontend/src/nav.ts: the rail of screens for a role, with the Ctrl-digit shortcuts that are
-- assigned by position. `Laws` has the theorems. An item's icon is a component that is only
-- rendered, and is left out.
pub mod Laws
use mathlib.Core.Option
use Prim.Native.String.{String}
use text.Mathlib.Text.{◌==◌ as str_eq}
use proxyforward.Common.{ℕ, suc, Bool, true, false, ◌||◌, Option, none, some, List, [], ◌∷◌, ◌++◌}
use proxyforward.Common.Tests
use proxyforward.Common.Lists.{length, filter, find?}
use proxyforward.Common.Decimal.{Text, decimal}

-- `NavId`
pub data NavId : Type 0 where
  overview agents traffic players analytics tunnels activity settings : NavId

-- `===` on two ids, by their places in the type.
abbrev pub id_code : NavId → ℕ
id_code overview = 0
id_code agents = 1
id_code traffic = 2
id_code players = 3
id_code analytics = 4
id_code tunnels = 5
id_code activity = 6
id_code settings = 7

-- `NavItem`, with the digits of its shortcut
pub record NavItem : Type 0 where
  pub id : NavId
  pub label : String
  pub shortcut : Text

-- `NavDef`; no roles means every role.
pub record NavDef : Type 0 where
  pub id : NavId
  pub label : String
  pub roles : Option (List String)

abbrev for_all : NavId → String → NavDef
for_all id label = record { id = id; label = label; roles = none }

-- `MAIN`
abbrev pub main : List NavDef
main =
    for_all overview "Overview"
    ∷ (record { id = agents; label = "Agents"; roles = some ("gateway" ∷ []) })
    ∷ for_all traffic "Traffic"
    ∷ for_all players "Players"
    ∷ for_all analytics "Analytics"
    ∷ for_all tunnels "Tunnels"
    ∷ for_all activity "Activity"
    ∷ []

-- `SETTINGS`
abbrev pub settings_def : NavDef
settings_def = for_all settings "Settings"

-- `Array.prototype.includes`
abbrev pub includes : List String → String → Bool
includes [] s = false
includes (t ∷ ts) s = str_eq t s || includes ts s

-- The filter of `mainNav`.
abbrev pub is_visible : String → NavDef → Bool
is_visible role d = elim d.roles [ none ↦ true | some rs ↦ includes rs role ]

-- The `map` of `mainNav` from the index i on: the shortcut is the place, counted from 1.
abbrev pub assign : ℕ → List NavDef → List NavItem
assign i [] = []
assign i (d ∷ ds) =
    (record { id = d.id; label = d.label; shortcut = decimal (suc i) }) ∷ assign (suc i) ds

-- `mainNav`
unfoldable pub main_nav : String → List NavItem
main_nav role = assign 0 (filter (is_visible role) main)

-- `settingsNav`
unfoldable pub settings_nav : String → NavItem
settings_nav role = record {
  id = settings_def.id;
  label = settings_def.label;
  shortcut = decimal (suc (length (main_nav role)));
}

-- `navFor`
unfoldable pub nav_for : String → List NavItem
nav_for role = main_nav role ++ settings_nav role ∷ []

-- `a === b`
abbrev pub same_id : NavId → NavId → Bool
same_id a b = Tests.◌==◌ (id_code a) (id_code b)

-- `labelOf`
unfoldable pub label_of : NavId → String
label_of id =
    Option.get_or
      (Option.map (λ d. d.label) (find? (λ d. same_id d.id id) (main ++ settings_def ∷ []))) ""
