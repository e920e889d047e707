-- ===== src/Examples/SettingsExamples.antt =====
-- Tests and examples for the settings screen.
use proxyforward.Common.{ℕ, ◌≡◌, refl, true, false, Option, some, [], map, arith}
use proxyforward.Common.Tests.{leb, if◌then◌else◌}
use proxyforward.Common.Texts.{trim, trim_start, trim_end, parse_int, leading}
use proxyforward.Common.Lists.{All}
use proxyforward.Common.Int.{pos, is_positive}
use proxyforward.Common.Decimal.{Text, codes, text_eq}
use proxyforward.Settings.{Config, folded, num_str, typed}
use proxyforward.Settings.Folded.{numbers, seen, IsServed, folded-Shows}
use proxyforward.Settings.Staged.{
  Settings, restarting, mount, get_config, reloaded, rotated, patch, save_clicked, set_theme, idle,
  saved, restarted,
}
use proxyforward.Settings.Staged.Runs.{World, opened}
use proxyforward.Settings.Staged.Unsaved.{patch-restarted, saved-set_theme}
use proxyforward.Settings.Rail.{Scroller, sections, spied, first_id, is_passed, floor, spied_from}
use proxyforward.Settings.Rail.Spied.{spied-IsLastPassed, Spies}
use proxyforward.Settings.System.{svc_display}

abbrev plain : Config
plain = record {
  role = codes "gateway";
  agent = record {
    agent_id = [];
    gateway_host = [];
    gateway_port = pos 0;
    token = [];
    cert_fingerprint = [];
    transport = codes "auto";
    tunnels = [];
    enroll_ticket = [];
  };
  gateway = record {
    bind_addr = [];
    control_port = pos 9000;
    token = [];
    public_host = codes "play.example.com";
    port_allowlist = [];
    max_conns_global = pos 0;
    max_conns_per_ip = pos 32;
    auth_attempts_per_min = pos 10;
    quic_enabled = true;
    accept_shared_token = false;
  };
  metrics = record { prometheus_enabled = true; prometheus_addr = codes " " };
  logging = record { level = codes "info"; file_enabled = true };
  ui = record { theme = codes "dark"; minimize_to_tray = true; autostart = false };
  analytics = record {
    retention_days = pos 0;
    mojang_lookups = true;
    geo_ip_city_path = [];
    geo_ip_asn_path = [];
  };
}

folded-Shows_example :
    (map seen (numbers (folded plain)) ≡ map seen (numbers plain))
    × All (λ f. is_positive f.value ≡ true) (numbers (folded plain))
    × IsServed (folded plain).metrics
folded-Shows_example =
    folded-Shows plain
      ((0, refl), ((9000, refl), ((0, refl), ((32, refl), ((10, refl), ((0, refl), tt))))))

-- The screen opens, its configuration comes, a new token is written and read again, and the port is
-- edited and stored.
abbrev plain_world : World
plain_world = opened false plain

abbrev loaded_screen : Settings
loaded_screen = reloaded [] plain (get_config (mount false plain))

abbrev rotated_screen : Settings
rotated_screen = get_config (rotated true (codes "new") loaded_screen)

abbrev read_screen : Settings
read_screen = reloaded [] rotated_screen.stored rotated_screen

abbrev stored_screen : Settings
stored_screen = saved (save_clicked (patch folded read_screen))

abbrev restarting_screen : Settings
restarting_screen = record {
  cfg = some (folded plain);
  dirty = true;
  saving = true;
  err = [];
  note = [];
  attached = false;
  save = restarting;
  stored = folded plain;
  asked = 0;
  answers = [];
}

patch-restarted_example :
    ((restarted (patch (λ c. plain) restarting_screen)).cfg ≡ some plain)
    × ((restarted (patch (λ c. plain) restarting_screen)).stored ≡ restarting_screen.stored)
    × ((restarted (patch (λ c. plain) restarting_screen)).dirty ≡ false)
    × (save_clicked (restarted (patch (λ c. plain) restarting_screen))
        ≡ restarted (patch (λ c. plain) restarting_screen))
patch-restarted_example = patch-restarted restarting_screen (λ c. plain) (folded plain) refl refl

abbrev bottom : Scroller
bottom = record {
  chrome = 40;
  rect_top = 1000;
  client_height = 700;
  scroll_height = 2000;
  scroll_top = 1300;
}

-- The tops of the sections, all on the screen but the last
abbrev top_of : Text → Option ℕ
top_of id = if text_eq id (codes "about") then some 1690 else some 1200

spied-IsLastPassed_example :
    Spies bottom top_of
      (sections true)
      (first_id (sections true))
      (spied bottom top_of (sections true))
    × ((top : ℕ) → is_passed bottom top ≡ leb top (floor bottom))
spied-IsLastPassed_example =
    spied-IsLastPassed bottom top_of (sections true) (omega arith) (omega arith) (omega arith)

backup_active : spied bottom top_of (sections true) ≡ codes "backup"
unfolding spied spied_from sections is_passed
backup_active = refl

service_hyphen : (svc_display (λ t. t) (codes "not-installed")).installed ≡ false
unfolding svc_display
service_hyphen = refl

typed_negative : num_str (typed (codes "-5")) ≡ []
unfolding num_str typed
typed_negative = unfold trim trim_start trim_end parse_int leading in refl

abbrev edited_screen : Settings
edited_screen = record {
  cfg = some plain;
  dirty = true;
  saving = false;
  err = [];
  note = [];
  attached = false;
  save = idle;
  stored = plain;
  asked = 0;
  answers = [];
}

saved-set_theme_example :
    ((set_theme (codes "light") edited_screen).stored.ui.theme ≡ codes "light")
    × ((saved (save_clicked (set_theme (codes "light") edited_screen))).stored.ui.theme
        ≡ codes "dark")
saved-set_theme_example = saved-set_theme edited_screen plain (codes "light") refl refl refl
