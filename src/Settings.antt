-- ===== src/Settings.antt =====
-- The settings screen, frontend/src/screens/Settings.tsx: the configuration that it stages (the
-- classes of frontend/wailsjs/go/models.ts), and what `save` makes of the fields that are left
-- empty. The staging itself, the rail and the rows of the system are in the child modules.
pub mod Folded
pub mod Staged
pub mod Rail
pub mod System
use proxyforward.Common.{
  ℕ, zero, suc, Bool, true, false, not, ◌&&◌, Option, none, some, List, [], ◌∷◌,
}
use proxyforward.Common.Tests.{if◌then◌else◌}
use proxyforward.Common.Int.{ℤ, pos, negsuc, is_positive, show}
use proxyforward.Common.Decimal.{Text, codes}
use proxyforward.Common.Texts.{trim, is_empty, parse_int}
use proxyforward.Tunnels.{Tunnel}

pub record AgentConfig : Type 0 where
  pub agent_id : Text
  pub gateway_host : Text
  pub gateway_port : ℤ
  pub token : Text
  pub cert_fingerprint : Text
  pub transport : Text
  pub tunnels : List Tunnel
  pub enroll_ticket : Text

pub record AnalyticsConfig : Type 0 where
  pub retention_days : ℤ
  pub mojang_lookups : Bool
  pub geo_ip_city_path : Text
  pub geo_ip_asn_path : Text

pub record UiConfig : Type 0 where
  pub theme : Text
  pub minimize_to_tray : Bool
  pub autostart : Bool

pub record LoggingConfig : Type 0 where
  pub level : Text
  pub file_enabled : Bool

pub record MetricsConfig : Type 0 where
  pub prometheus_enabled : Bool
  pub prometheus_addr : Text

pub record GatewayConfig : Type 0 where
  pub bind_addr : Text
  pub control_port : ℤ
  pub token : Text
  pub public_host : Text
  pub port_allowlist : List ℕ
  pub max_conns_global : ℤ
  pub max_conns_per_ip : ℤ
  pub auth_attempts_per_min : ℤ
  pub quic_enabled : Bool
  pub accept_shared_token : Bool

pub record Config : Type 0 where
  pub role : Text
  pub agent : AgentConfig
  pub gateway : GatewayConfig
  pub metrics : MetricsConfig
  pub logging : LoggingConfig
  pub ui : UiConfig
  pub analytics : AnalyticsConfig

-- `DEF`
pub record Defaults : Type 0 where
  pub control_port : ℕ
  pub bind_addr : Text
  pub max_conns_global : ℕ
  pub max_conns_per_ip : ℕ
  pub auth_attempts_per_min : ℕ
  pub retention_days : ℕ
  pub prometheus_addr : Text

abbrev pub def : Defaults
def = record {
  control_port = 8474;
  bind_addr = codes "0.0.0.0";
  max_conns_global = 4096;
  max_conns_per_ip = 32;
  auth_attempts_per_min = 10;
  retention_days = 180;
  prometheus_addr = codes "127.0.0.1:9464";
}

-- `numStr`
unfoldable pub num_str : ℤ → Text
num_str n = if is_positive n then show n else []

-- `parseInt(v, 10) || 0`, of the text that is typed
abbrev pub or_zero : Option ℤ → ℤ
or_zero none = pos 0
or_zero (some n) = n

unfoldable pub typed : Text → ℤ
typed v = or_zero (parse_int (trim v))

-- `a || b`, for a number
abbrev pub or_number : ℤ → ℕ → ℤ
or_number (pos zero) d = pos d
or_number (pos (suc n)) d = pos (suc n)
or_number (negsuc n) d = negsuc n

abbrev pub or_addr : MetricsConfig → MetricsConfig
or_addr m =
    if m.prometheus_enabled && is_empty (trim m.prometheus_addr)
    then record m { prometheus_addr = def.prometheus_addr }
    else m

-- What `save` sends for the staged configuration
unfoldable pub folded : Config → Config
folded c = record c {
  agent = record c.agent { gateway_port = or_number c.agent.gateway_port def.control_port };
  gateway = record c.gateway {
    control_port = or_number c.gateway.control_port def.control_port;
    max_conns_global = or_number c.gateway.max_conns_global def.max_conns_global;
    max_conns_per_ip = or_number c.gateway.max_conns_per_ip def.max_conns_per_ip;
    auth_attempts_per_min = or_number c.gateway.auth_attempts_per_min def.auth_attempts_per_min;
  };
  analytics = record c.analytics {
    retention_days = or_number c.analytics.retention_days def.retention_days;
  };
  metrics = or_addr c.metrics;
}
