-- ===== src/Agents.antt =====
-- frontend/src/screens/Agents.tsx: the gateway's roster of agents. `Order` has the sort and the
-- filter of the roster, `Conflicts` the warnings, `Events` the tail of the gateway's events, and
-- `Scope` what an agent may bind. Rates and losses that are only printed are left out.
pub mod Order
pub mod Conflicts
pub mod Events
pub mod Scope
pub mod Log
pub mod Synced
pub mod Refines
pub mod CatchUp
use Prim.Native.String.{String}
use text.Mathlib.Text.{◌==◌ as str_eq}
use proxyforward.Common.{ℕ, ◌+◌, Bool, true, false, not, ◌&&◌, Option, none, some, List, [], ◌∷◌}
use proxyforward.Common.Tests.{if◌then◌else◌, ltb}
use proxyforward.Common.Decimal.{Text}
use proxyforward.Common.Int.{ℤ, pos, negsuc}

-- `Seg`
pub data Seg : Type 0 where
  good warn bad unknown : Seg

-- `app.AgentUI`, the live snapshot of an agent, with its verdict as the code reads it. The round
-- trip, the jitter and the loss are counted in a unit that is fine enough, and unknown below 0.
pub record AgentUi : Type 0 where
  pub agent_id : Text
  pub hostname : Text
  pub lan_ips : List Text
  pub remote_ip : Text
  pub link_up_since_ms : ℕ
  pub rtt_millis : ℤ
  pub jitter_millis : ℤ
  pub packet_loss_pct : ℤ
  pub health_score : Option Seg
  pub link_bytes_in : ℕ
  pub link_bytes_out : ℕ
  pub tunnels : ℕ
  pub players : ℕ

-- `gateway.AgentView`
pub record AgentView : Type 0 where
  pub agent_id : Text
  pub nickname : Text
  pub enrolled : Bool
  pub revoked : Bool
  pub scope_ports : List ℕ
  pub scope_tunnels : List Text
  pub issued_at_ms : ℕ
  pub connected : Bool
  pub hostname : Text
  pub remote_ip : Text
  pub link_up_since_ms : ℕ
  pub tunnels : ℕ

-- `Row`
pub record Row : Type 0 where
  pub view : AgentView
  pub live : Option AgentUi

-- `HEALTH_RANK`
abbrev pub health_rank : Seg → ℕ
health_rank bad = 0
health_rank warn = 1
health_rank unknown = 2
health_rank good = 3

-- `seg`: no score is unknown.
abbrev pub seg_of : Option Seg → Seg
seg_of none = unknown
seg_of (some s) = s

-- `rowSeg`
abbrev pub row_seg : Option AgentUi → Seg
row_seg none = unknown
row_seg (some a) = seg_of a.health_score

-- `traffic`
abbrev pub traffic : Option AgentUi → ℕ
traffic none = 0
traffic (some a) = a.link_bytes_in + a.link_bytes_out

-- `players`
abbrev pub players : Option AgentUi → ℕ
players none = 0
players (some a) = a.players

-- `isConnected`
abbrev pub is_connected : AgentView → Bool
is_connected v = v.connected && not v.revoked

-- `tier`
abbrev pub tier : AgentView → ℕ
tier v = if v.revoked then 2 else if v.connected then 0 else 1

abbrev pub or_else : Text → Text → Text
or_else [] t = t
or_else (c ∷ cs) t = c ∷ cs

-- `displayName`
abbrev pub display_name : AgentView → Text
display_name v = or_else v.nickname (or_else v.hostname v.agent_id)

-- `jitterTone` and `lossTone`, of a value in whole units above its limits
unfoldable pub tone_of : ℕ → ℕ → ℤ → Seg
tone_of high low (negsuc n) = unknown
tone_of high low (pos v) = if ltb high v then bad else if ltb low v then warn else good
