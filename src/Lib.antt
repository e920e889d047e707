-- ===== src/Lib.antt =====
-- Models and proofs for the frontend of proxyforward, a tunnel that publishes local Minecraft
-- servers through a gateway. The frontend (frontend/src, TypeScript and React) runs in a window of
-- the Go program: it reads a status snapshot twice a second and polls the backend for history, and
-- sends settings and tunnels back. A React component is modelled as a state with one function for
-- each handler and effect; what the runtime may do (renders, timers, answers of the backend, the
-- browser's callbacks) is a step relation, and a theorem on all runs is an induction on it. What a
-- component renders is modelled where it is computed (texts, lists, which element answers), not the
-- markup.
--
-- Parts, files and code:
-- Common: names, Boolean tests, lists, maps, stable sorting, decimal texts as UTF-16 code units, with
--   what JavaScript's trim, split, join and parseInt do with them, and integers with its rounding. `String(n)` takes its digits on fuel n + 1, as a number
--   has no more digits than that.
-- State: the formatters, the scopes, the fleet's health and the flags of frontend/src/state.ts.
-- Status: the fields of the snapshot `UIStatus` (frontend/wailsjs/go/models.ts) that are read.
-- Nav: the rail of frontend/src/nav.ts (`mainNav`, `settingsNav`, `navFor`, `labelOf`).
-- App: frontend/src/App.tsx: the tint of the backdrop (`ambientOf` and its effect, with the timers
--   of the page), the fallback of the screen, the keyboard, and the hold of the wizard
--   (App/Wizard.antt). It takes the rail from Nav.
-- Commands and Palette: the commands and `fuzzyScore` of frontend/src/commands.tsx, and
--   frontend/src/components/CommandPalette.tsx on top of them. `toLowerCase` is a parameter.
-- Prefs and Theme: the stored preferences of frontend/src/motion.ts and frontend/src/fx.ts, and the
--   theme of frontend/src/theme.ts with its animated swap, over one model of localStorage. History
--   has the chart's preferences of frontend/src/history.ts over the same.
-- Polling: `usePolled` of frontend/src/hooks.ts, on which the reads of frontend/src/players.ts and
--   frontend/src/analytics.ts stand. The backend's endpoint is a parameter: keys, values, and which
--   values answer a key. Polling/Debounced.antt: `useDebounced`.
-- Tunnels: the edits of frontend/src/screens/Tunnels.tsx and their saves. The backend answers in
--   the order of the calls; that it may hold a list that it could not write is read off
--   `SaveTunnels` of app/app.go. Tunnels/Buttons.antt: `DeleteButton` and `TestPath`.
-- Players: the texts and the hand-over of frontend/src/players.ts, and the wall with its pages of
--   frontend/src/screens/Players.tsx (Players/Wall.antt).
-- Ticks: `timeTicks` of frontend/src/components/charts/util.ts. Its loops run on fuel: one round
--   for each millisecond that is left, and the step is at
--   least 1. The local midnight is a parameter. Ticks/Chart.antt: `ticksFor` of
--   frontend/src/components/BandwidthChart.tsx, which repeats it.
-- Chart: the uptime strip, the gauge's paths and the gauge's merge of
--   frontend/src/components/BandwidthChart.tsx.
--   Chart/Buckets.antt has its buckets: `toPlots`, the candles (Chart/Candles.antt; the loop over the
--   groups has the number of buckets as fuel, and a group has at least one), `resolveHover`
--   (Chart/Hover.antt) and the statistics (Chart/Stats.antt).
-- RubberBand: frontend/src/rubberband.ts: `ownerFor` on the elements from the target outwards, and
--   the life of the bands: the objects and the latches that share them (RubberBand/Bands.antt), the
--   frame `tick` with its spring (Frame.antt), and the wheel, the finger and the keys (Input.antt).
--   Its numbers are a parameter, on which no law is asked for (Numbers.antt). A run is a sequence of
--   the handlers (Steps.antt), in any order or with every first finger at a time when none holds a
--   band; the other files there are lemmas on it.
-- Agents: frontend/src/screens/Agents.tsx: the order and filter of the roster, the conflicts, the
--   tail of the gateway's events against the gateway's log, and the scope of an agent. The collation
--   of names and `toLowerCase` are parameters.
-- Switcher and Pill: frontend/src/components/RoleSwitcher.tsx, with the outcomes of the backend's
--   calls as a parameter, and frontend/src/components/ConnectionPill.tsx.
-- Dialogs: the floats and the modal of frontend/src/components/ui.tsx, with the confirmation of
--   Switcher in it.
-- Switches: `Switch` of frontend/src/components/ui.tsx.
-- Avatars: frontend/src/components/AvatarImg.tsx.
-- Activity: the filter and the copied lines of frontend/src/screens/Activity.tsx.
-- Traffic: frontend/src/screens/Traffic.tsx: the addresses, `currentRates` over the baselines of the
--   module (Traffic/Rates.antt), `mergeClients` (Traffic/Clients.antt) and `fmtElapsed`
--   (Traffic/Elapsed.antt). The clock stands still while one of them runs; a rate is a pair of bytes
--   and milliseconds.
-- Setup: frontend/src/screens/Wizard.tsx: `parsePairing`, with the text of a code as the gateway
--   prints it for a host and a token that need no escapes (internal/link/pairing.go); the acts with the calls that are under way
--   (Setup/Acts.antt); and the issue of a code with its retries, whose calls and timers end in any
--   order (Setup/Ticket.antt).
-- Settings: frontend/src/screens/Settings.tsx: the configuration and the defaults that a save puts
--   into it; its staging against what the backend has stored (Settings/Staged.antt), which the saves,
--   the theme, a new token and an import change as app/app.go and app/setup.go have it, with the
--   runs of both in Settings/Staged/Runs.antt; the rail (Settings/Rail.antt); and the rows of the
--   system (Settings/System.antt).
-- Analytics: frontend/src/screens/Analytics.tsx: the segments of an uptime band, in milliseconds from
--   its left end (Analytics/Uptime.antt), and the playhead of a replay (Analytics/Replay.antt).
-- Ticker: frontend/src/components/NumberTicker.tsx, with the curve of its animation as a parameter.
-- Examples: tests at concrete inputs.
--
-- Numbers: times are whole milliseconds. A byte count or a rate is the exact fraction of its double,
-- and lengths on the page are whole multiples of a fraction of a pixel, so no rounding is lost.
--
-- Not modelled: the Go program (app, internal) but for what is named above, the generated bindings, the development mock, the
-- map's data, the icons and style sheets, the styles that the rubber band
-- paints, and the screens that lay out what they are given.
pub mod Common
pub mod Settings
pub mod Setup
pub mod State
pub mod Nav
pub mod Status
pub mod Commands
pub mod Palette
pub mod Prefs
pub mod Polling
pub mod Analytics
pub mod App
pub mod Tunnels
pub mod RubberBand
pub mod Players
pub mod Ticker
pub mod Ticks
pub mod Chart
pub mod History
pub mod Agents
pub mod Switcher
pub mod Dialogs
pub mod Switches
pub mod Avatars
pub mod Activity
pub mod Pill
mod Examples
pub mod Theme
pub mod Traffic
