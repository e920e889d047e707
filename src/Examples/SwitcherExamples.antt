-- ===== src/Examples/SwitcherExamples.antt =====
-- Examples for the role switcher and the connection pill.
use proxyforward.Common.{◌+◌, ◌≤◌, ◌⊎◌, arith, ◌≡◌, refl, true, false, none, some, [], ◌∷◌}
use proxyforward.Common.Decimal.{codes}
use proxyforward.Status.{Status}
use proxyforward.Switcher.{agent, Config, Switcher, Backend, ok, error, dismiss, end_switch}
use proxyforward.Switcher.Safety.{press, enter, choose, confirmed, ended, run, IsSafe, run-IsSafe}
use proxyforward.Dialogs.{
  Trigger, is_up, list_top, max_height, max_height-fits, Confirmation, begin, fire,
  begin-fire-stuck, switches, Step, Reach,
}
use proxyforward.Dialogs.{ended as end_of_switch}

-- A gateway with two agents.
abbrev gateway_status : Status
gateway_status = record {
  mode = "standalone";
  role = "gateway";
  link_up = false;
  agent_connected = true;
  health_score = "good";
  agents = "good" ∷ "warn" ∷ [];
  public_ip = "";
  peer_addr = "";
  engine_fatal = "";
}

abbrev paired : Config
paired = record {
  role = "gateway";
  agent_token = codes "t";
  agent_gateway_host = codes "h";
  gateway_public_host = [];
}

abbrev shut : Switcher
shut = record {
  is_open = false;
  confirm = none;
  cfg = some paired;
  busy = false;
  err = "";
  worn = "gateway";
  pairings = 0;
}

shut-IsSafe : IsSafe gateway_status (some paired) shut
shut-IsSafe = record { config = refl; worn = λ e. refl; confirm = tt }

run-IsSafe_example :
    IsSafe gateway_status (some paired) (
      run gateway_status (press ∷ enter agent ∷ choose agent ∷ confirmed ∷ ended (ok tt) ∷ []) shut)
run-IsSafe_example =
    run-IsSafe gateway_status (some paired)
      (press ∷ enter agent ∷ choose agent ∷ confirmed ∷ ended (ok tt) ∷ []) shut shut-IsSafe

abbrev backend : Backend
backend = record {
  get_config = ok paired;
  setup_gateway = λ host. error "taken";
  save_settings = λ c. ok tt;
  restart_engine = ok tt;
}

abbrev trigger : Trigger
trigger = record { top = 500; bottom = 530 }

max_height-fits_example :
    let top = list_top 1 600 trigger 300 in
    (8 ≤ top)
    × (top + 300 + 8 ≤ 600)
    × ((top + 300 + 4 ≤ 500) ⊎ (534 ≤ top))
    × ((208 ≤ max_height 1 600 trigger)
        ⊎ ((500 ≤ max_height 1 600 trigger + 12) × (600 ≤ 530 + max_height 1 600 trigger + 12)))
unfolding max_height is_up
max_height-fits_example =
    max_height-fits 1 600 trigger 300 (omega arith) (omega arith) (omega arith) (omega arith)

abbrev switching : Confirmation
switching = record {
  modal = record { closing = false; timers = 0 };
  switcher = record shut { confirm = some agent; busy = true };
}

-- The switch fails after the dialog has faded out, and is tried again.
abbrev failed_switch : Confirmation
failed_switch = end_of_switch (error "refused") (fire (begin switching))

retried_run : Reach failed_switch (switches failed_switch)
unfolding begin fire end_of_switch dismiss end_switch
retried_run = Reach.next Reach.here (Step.starts refl)

begin-fire-stuck_example :
    (failed_switch.switcher.confirm ≡ some agent)
    × (failed_switch.switcher.err ≡ "refused")
    × (failed_switch.modal.timers ≡ 0)
    × ((switches failed_switch).modal.closing ≡ true)
    × (((switches failed_switch).switcher.confirm ≡ some agent)
        ⊎ ((switches failed_switch).switcher.confirm ≡ none))
begin-fire-stuck_example = begin-fire-stuck "refused" agent switching refl refl retried_run
