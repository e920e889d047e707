-- ===== src/Setup/Acts.antt =====
-- The acts of the first-run wizard (frontend/src/screens/Wizard.tsx) with the calls of the backend
-- that it waits for. An event of a control that is not shown, or is disabled, changes nothing.
pub mod Calls
use proxyforward.Common.{
  ℕ, zero, suc, Bool, true, false, not, ◌&&◌, Option, none, some, List, [], ◌∷◌, ◌++◌,
}
use proxyforward.Common.Tests.{if◌then◌else◌}
use proxyforward.Common.Int.{ℤ, pos, negsuc}
use proxyforward.Common.Decimal.{Text, codes}
use proxyforward.Common.Texts.{trim, parse_int, starts_with}
use proxyforward.Common.Maps.{is_some}
use proxyforward.Setup.{parse_pairing}

pub data Act : Type 0 where
  role gateway agent import_backup live : Act

pub data Kind : Type 0 where
  as_gateway as_agent : Kind

-- A call of the backend that has not been answered yet
pub data Call : Type 0 where
  setup_gateway : Text → Call
  setup_agent : Text → Text → ℤ → Call

pub record Wizard : Type 0 where
  pub act : Act
  pub kind : Kind
  pub err : Text
  pub busy : Bool
  pub public_host : Text
  pub pairing : Text
  pub local_addr : Text
  pub public_port : Text
  pub pending : List Call

unfoldable pub start : Wizard
start = record {
  act = role;
  kind = as_gateway;
  err = [];
  busy = false;
  public_host = [];
  pairing = [];
  local_addr = codes "127.0.0.1:25565";
  public_port = codes "25565";
  pending = [];
}

-- `parseInt(publicPort, 10) || 25565`
abbrev pub or_default : Option ℤ → ℤ
or_default none = pos 25565
or_default (some (pos zero)) = pos 25565
or_default (some (pos (suc n))) = pos (suc n)
or_default (some (negsuc n)) = negsuc n

unfoldable pub do_gateway : Wizard → Wizard
do_gateway s = record s {
  busy = true;
  err = [];
  pending = s.pending ++ setup_gateway (trim s.public_host) ∷ [];
}

unfoldable pub do_agent : Wizard → Wizard
do_agent s = record s {
  busy = true;
  err = [];
  pending =
      s.pending
      ++ setup_agent (trim s.pairing) (trim s.local_addr)
          (or_default (parse_int (trim s.public_port)))
        ∷ [];
}

abbrev pub kind_of : Call → Kind
kind_of (setup_gateway h) = as_gateway
kind_of (setup_agent c l p) = as_agent

-- What follows `await`, and `finally`
unfoldable pub succeed : Call → Wizard → Wizard
succeed c s = record s { kind = kind_of c; act = live; busy = false }

unfoldable pub fail : Text → Wizard → Wizard
fail e s = record s { err = e; busy = false }

-- The effect of a deep link
unfoldable pub deep_link : Text → Wizard → Wizard
deep_link link s =
    if starts_with (codes "pxf://") link
    then record s { err = []; kind = as_agent; pairing = link; act = agent }
    else s

-- The cards and the button of the first act
unfoldable pub choose : Act → Wizard → Wizard
choose a s = elim s.act [ role ↦ record s { err = []; act = a } | _ ↦ s ]

-- "Back" of the import, the gateway's and the agent's act
unfoldable pub back : Wizard → Wizard
back s = elim s.act [ role ↦ s | live ↦ s | _ ↦ record s { act = role } ]

-- `onBack` of `AgentLive`
abbrev pub leave_live : Act → Kind → Wizard → Wizard
leave_live live as_agent s = record s { err = []; act = agent }
leave_live live as_gateway s = s
leave_live role k s = s
leave_live gateway k s = s
leave_live agent k s = s
leave_live import_backup k s = s

unfoldable pub back_from_live : Wizard → Wizard
back_from_live s = leave_live s.act s.kind s

-- The button "Start gateway", and the key Enter of the address, which is not disabled
unfoldable pub start_gateway : Wizard → Wizard
unfolding do_gateway
start_gateway s = elim s.act [ gateway ↦ if s.busy then s else do_gateway s | _ ↦ s ]

unfoldable pub enter : Wizard → Wizard
unfolding do_gateway
enter s = elim s.act [ gateway ↦ do_gateway s | _ ↦ s ]

-- The button "Connect"
unfoldable pub connect : Wizard → Wizard
unfolding do_agent
connect s = elim s.act [
  | agent ↦ if s.busy then s else if is_some (parse_pairing s.pairing) then do_agent s else s
  | _ ↦ s
]
