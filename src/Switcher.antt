-- ===== src/Switcher.antt =====
-- frontend/src/components/RoleSwitcher.tsx: the menu in which the machine changes between agent and
-- gateway. The backend's calls are a parameter, by their outcomes; a call that fails gives the text
-- of its error. `Safety` has what the menu and the confirmation keep, and `Calls` what is called.
pub mod Safety
pub mod Calls
use Prim.Native.String.{String}
use text.Mathlib.Text.{◌==◌ as str_eq}
use proxyforward.Common.{
  ℕ, suc, Bool, true, false, not, ◌&&◌, ◌||◌, Option, none, some, List, [], ◌∷◌,
}
use proxyforward.Common.Tests.{if◌then◌else◌}
use proxyforward.Common.Decimal.{Text}
use proxyforward.Common.Texts.{trim, is_empty}
use proxyforward.Status.{Status}

-- `Role`
pub data Role : Type 0 where
  agent gateway : Role

-- `config.Config`, as far as the switcher reads it
pub record Config : Type 0 where
  pub role : String
  pub agent_token : Text
  pub agent_gateway_host : Text
  pub gateway_public_host : Text

-- The state of `RoleSwitcher`, with the role that the document wears and how often `onPair` ran.
pub record Switcher : Type 0 where
  pub is_open : Bool
  pub confirm : Option Role
  pub cfg : Option Config
  pub busy : Bool
  pub err : String
  pub worn : String
  pub pairings : ℕ

abbrev pub role_text : Role → String
role_text agent = "agent"
role_text gateway = "gateway"

-- `role`
abbrev pub role_of : Status → Role
role_of s = if str_eq s.role "agent" then agent else gateway

abbrev pub same_role : Role → Role → Bool
same_role agent agent = true
same_role gateway gateway = true
same_role agent gateway = false
same_role gateway agent = false

-- `attached`
abbrev pub is_attached : Status → Bool
is_attached s = str_eq s.mode "attached"

-- `paired`
abbrev pub is_paired : Option Config → Bool
is_paired none = false
is_paired (some c) = not (is_empty c.agent_token) && not (is_empty c.agent_gateway_host)

-- `r ?? (status.role || 'unset')`
abbrev pub worn_role : Status → Option Role → String
worn_role s (some r) = role_text r
worn_role s none = if str_eq s.role "" then "unset" else s.role

-- `preview`
unfoldable pub preview : Status → Option Role → Switcher → Switcher
preview s r w = record w { worn = worn_role s r }

-- `close`
unfoldable pub close : Status → Switcher → Switcher
unfolding preview
close s w = preview s none (record w { is_open = false })

-- `pick`
unfoldable pub pick : Status → Role → Switcher → Switcher
unfolding close
pick s target w =
    let closed = close s w in
    if same_role target (role_of s)
    then closed
    else if same_role target agent && not (is_paired w.cfg)
    then record closed { pairings = suc closed.pairings }
    else record closed { err = ""; confirm = some target }

-- The button, which is disabled while attached
unfoldable pub toggle : Status → Switcher → Switcher
unfolding preview
toggle s w =
    if is_attached s
    then w
    else if w.is_open
    then preview s none (record w { is_open = false })
    else record w { is_open = true }

-- The confirmation's own close, and its cancel
unfoldable pub dismiss : Switcher → Switcher
dismiss w = if w.busy then w else record w { confirm = none; err = "" }

-- `GetConfig` after a change of role
unfoldable pub read : Option Config → Switcher → Switcher
read none w = w
read (some c) w = record w { cfg = some c }

-- The outcome of a call
pub data Outcome (A : Type 0) : Type 0 where
  ok : A → Outcome A
  error : String → Outcome A

pub record Backend : Type 0 where
  pub get_config : Outcome Config
  pub setup_gateway : Text → Outcome Unit
  pub save_settings : Config → Outcome Unit
  pub restart_engine : Outcome Unit

-- The calls of the backend
pub data Call : Type 0 where
  getting : Call
  setting_up : Text → Call
  saving : Config → Call
  restarting : Call

abbrev pub then_restart : Backend → Outcome Unit → List Call × Outcome Unit
then_restart b (ok u) = (restarting ∷ [], b.restart_engine)
then_restart b (error e) = ([], error e)

abbrev pub before : Call → List Call × Outcome Unit → List Call × Outcome Unit
before c (cs, o) = (c ∷ cs, o)

-- The calls of `doSwitch` after `GetConfig`
abbrev pub switch_with : Backend → Role → Config → List Call × Outcome Unit
switch_with b gateway c =
    let host = trim c.gateway_public_host in (setting_up host ∷ [], b.setup_gateway host)
switch_with b agent c =
    let saved = record c { role = "agent" } in
    before (saving saved) (then_restart b (b.save_settings saved))

abbrev pub switch_after : Backend → Role → Outcome Config → List Call × Outcome Unit
switch_after b target (ok c) = switch_with b target c
switch_after b target (error e) = ([], error e)

-- The calls of `doSwitch`, and what they come to
unfoldable pub switch_calls : Backend → Role → List Call × Outcome Unit
switch_calls b target = before getting (switch_after b target b.get_config)

-- `doSwitch`, up to its first `await`
unfoldable pub begin_switch : Switcher → Switcher
begin_switch w = record w { busy = true; err = "" }

-- The rest of `doSwitch`, with its `catch` and `finally`
unfoldable pub end_switch : Outcome Unit → Switcher → Switcher
end_switch (ok u) w = record w { confirm = none; busy = false }
end_switch (error e) w = record w { err = e; busy = false }
