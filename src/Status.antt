-- ===== src/Status.antt =====
-- `UIStatus` of frontend/wailsjs/go/models.ts, the 2 Hz snapshot of the Go side: the fields that
-- the modelled code reads. An agent of the fleet is its health score.
use Prim.Native.String.{String}
use proxyforward.Common.{Bool, List}

pub record Status : Type 0 where
  pub mode : String
  pub role : String
  pub link_up : Bool
  pub agent_connected : Bool
  pub health_score : String
  pub agents : List String
  pub public_ip : String
  pub peer_addr : String
  pub engine_fatal : String
