-- ===== src/Examples/WizardExamples.antt =====
-- Examples for the hold of the set-up wizard.
use proxyforward.Common.{◌≡◌, refl, false, some, []}
use proxyforward.Status.{Status}
use proxyforward.App.Wizard.{Stage, wizard, tick, hold_on, view, blank}

-- A first start, and the backend that leaves the set-up.
abbrev fresh : Status
fresh = record {
  mode = "wizard";
  role = "";
  link_up = false;
  agent_connected = false;
  health_score = "";
  agents = [];
  public_ip = "";
  peer_addr = "";
  engine_fatal = "";
}

abbrev set_up : Status
set_up = record fresh { mode = "engine"; role = "agent" }

abbrev started : Stage
started = tick (some fresh) blank

started-view : view started ≡ wizard
unfolding view tick hold_on
started-view = refl
