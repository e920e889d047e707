-- ===== src/Examples/AppExamples.antt =====
-- Examples for the frame of the console.
use proxyforward.Common.{◌≡◌, refl, some, false, [], ◌∷◌, arith}
use proxyforward.Common.Lists.{get_elem?}
use proxyforward.Common.Decimal.{decimal}
use proxyforward.Nav.{NavItem, overview, traffic, nav_for, main_nav, settings_nav}
use proxyforward.App.{ok, bad, Timer, Console, observe, shift, count_down, apply}
use proxyforward.App.Tint.{Trace, first, read, Step, Reach, Follows, Reach-Follows}

-- The first reading is ok, and the tunnel goes down half a second later.
abbrev down : Trace
down = read 500 bad (first 0 ok)

down_run : Reach (first 0 ok) down
down_run = Reach.next Reach.here (Step.reading 500 bad (omega arith))

abbrev countdown : Timer
countdown = record { id = 1; due = 3500; next = bad }

down_timers : down.tint.timers ≡ countdown ∷ []
unfolding observe shift count_down apply
down_timers = refl

Reach-Follows_example : Follows down
Reach-Follows_example = Reach-Follows 0 ok down_run

abbrev console : Console
console = record { nav = overview; palette = false }

abbrev second : NavItem
second = record { id = traffic; label = "Traffic"; shortcut = decimal 2 }

second_place : get_elem? (nav_for "agent") 1 ≡ some second
unfolding nav_for main_nav settings_nav
second_place = refl
