-- ===== src/Examples/TunnelExamples.antt =====
-- Examples for the tunnels.
use Prim.Native.String.{String}
use proxyforward.Common.{◌≡◌, refl, true, false, none, List, [], ◌∷◌}
use proxyforward.Common.Int.{pos}
use proxyforward.Tunnels.{Tunnel, Screen, toggle, delete, edited, edit, done, answer}
use proxyforward.Tunnels.Saves.{Step, Reach, answer-overlap}

abbrev tunnel : String → Tunnel
tunnel id = record {
  id = id;
  name = "Minecraft";
  protocol = "tcp";
  local_addr = "127.0.0.1:25565";
  public_port = pos 25565;
  enabled = true;
  options = record {
    minecraft_aware = false;
    proxy_protocol_v2 = false;
    offline_motd = "";
    bandwidth_limit_mbps = pos 0;
    bandwidth_limit_scope = "combined";
  };
}

abbrev two : List Tunnel
two = tunnel "a" ∷ tunnel "b" ∷ []

abbrev screen : Screen
screen = record { tunnels = two; editing = none; err = ""; stored = two; saves = [] }

saves_run : Reach screen (answer done (edit (delete "a") screen))
saves_run = Reach.next (Reach.next Reach.here (Step.edits (delete "a"))) Step.stores

-- Both tunnels are switched off at once: the first one stays on.
answer-overlap_example :
    ((answer done (edit (toggle "b" false) (edit (toggle "a" false) screen))).stored
      ≡ edited (toggle "a" false) two)
    × ((answer done (answer done (edit (toggle "b" false) (edit (toggle "a" false) screen)))).stored
        ≡ edited (toggle "b" false) two)
answer-overlap_example = answer-overlap (toggle "a" false) (toggle "b" false) screen refl
