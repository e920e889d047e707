-- ===== src/Examples/StateExamples.antt =====
-- Tests and examples for frontend/src/state.ts and the preferences.
use proxyforward.Common.{◌≡◌, refl, none, some}
use proxyforward.Common.Decimal.{codes, decimal}
use proxyforward.Common.Int.{pos, negsuc}
use proxyforward.State.{
  fmt_uptime, fmt_duration, fraction, invalid, scale, print_scaled, fmt_bytes, flag_emoji,
}
use proxyforward.Prefs.{Prefs}

fmt_uptime_days : fmt_uptime (pos 183_600_000) ≡ codes "2d 3h"
unfolding fmt_uptime decimal
fmt_uptime_days = refl

-- A span below zero prints as seconds with a sign.
fmt_uptime_negative : fmt_uptime (negsuc 4_999) ≡ codes "-5s"
unfolding fmt_uptime decimal
fmt_uptime_negative = refl

fmt_duration_negative : fmt_duration (negsuc 4_999) ≡ codes "0s"
unfolding fmt_duration decimal
fmt_duration_negative = refl

fmt_bytes_kib : fmt_bytes (fraction 1536 1) ≡ codes "1.5 KiB"
unfolding fmt_bytes scale print_scaled decimal
fmt_bytes_kib = refl

fmt_bytes_invalid : fmt_bytes invalid ≡ codes "0 B"
unfolding fmt_bytes
fmt_bytes_invalid = refl

flag_of_de : flag_emoji (some (codes "de")) ≡ some (0x1f1e9, 0x1f1ea)
unfolding flag_emoji
flag_of_de = refl

abbrev fresh_page : Prefs
fresh_page = record { storage = λ k. none; motion = none; fx = none; notified = 0 }
