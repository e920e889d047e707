-- ===== src/Players.antt =====
-- frontend/src/players.ts: the hand-over of a player's page to the next mount of the Players
-- screen, and the texts for the last visit and the time played. Times are whole milliseconds.
-- `Spans` has the theorems on the texts, `HandOver` those on the queue of one. The polled reads
-- are `usePolled` of frontend/src/hooks.ts, at their keys.
pub mod Spans
pub mod HandOver
pub mod Wall
use Prim.Native.String.{String}
use proxyforward.Common.{ℕ, ◌+◌, ◌-◌, ◌*◌, ◌/◌, ◌%◌, Bool, Option, none, some, ◌∷◌, ◌++◌}
use proxyforward.Common.Tests.{ltb, ◌==◌, if◌then◌else◌}
use proxyforward.Common.Decimal.{Text, codes, decimal}
use proxyforward.State.{round}

-- The lines of `fmtLastSeen` that count: "12m ago"
abbrev pub ago : ℕ → ℕ → Text
ago n letter = decimal n ++ letter ∷ codes " ago"

-- `fmtLastSeen` after its third line, at s whole seconds.
unfoldable pub print_last_seen : ℕ → Text
print_last_seen s =
    if ltb s 90
    then codes "just now"
    else if ltb s 3600
    then ago (round s 60) b'm'
    else if ltb s 86400
    then ago (round s 3600) b'h'
    else if ltb s (7 * 86400)
    then ago (round s 86400) b'd'
    else ago (round s (7 * 86400)) b'w'

-- `fmtLastSeen`, at the time `Date.now()`; a visit that is to come counts as now.
unfoldable pub fmt_last_seen : ℕ → ℕ → Bool → Text
unfolding print_last_seen
fmt_last_seen now t online =
    if online
    then codes "online now"
    else if t == 0
    then 8212 ∷ codes ""
    else print_last_seen ((now - t) / 1000)

-- `fmtPlaytime`
unfoldable pub fmt_playtime : ℕ → Text
fmt_playtime ms =
    let m = ms / 60000 in
    let h = m / 60 in
    if ltb m 60
    then decimal m ++ codes "m"
    else if ltb h 48
    then decimal h ++ (codes "h " ++ (decimal (m % 60) ++ codes "m"))
    else decimal (h / 24) ++ (codes "d " ++ (decimal (h % 24) ++ codes "h"))

-- `openDossierOnMount`
unfoldable pub open_dossier_on_mount : String → Option String → Option String
open_dossier_on_mount uuid pending = some uuid

-- `takePendingDossier`, with what is pending from then on
unfoldable pub take_pending_dossier : Option String → Option String × Option String
take_pending_dossier pending = (pending, none)
