-- ===== src/Examples/PageExamples.antt =====
-- Examples for the rubber band, the players' texts and the grid lines of the charts.
use proxyforward.Common.{ℕ, ◌<◌, ◌≡◌, refl, true, false, none, some, [], ◌∷◌, arith}
use proxyforward.Common.Lists.{All}
use proxyforward.RubberBand.{Element, down, has_room, is_scroller, owner_for, walk, decide}
use proxyforward.RubberBand.Chaining.{Passes, Owns, owner_for-Owns}
use proxyforward.Ticks.{step_for, span_of}

-- A label in a log, in whole pixels.
abbrev label : Element
label = record {
  id = 1;
  html = false;
  page = false;
  scrolls = false;
  contains = false;
  fixed = false;
  scroll_height = 0;
  client_height = 0;
  scroll_top = 0;
}

abbrev log : ℕ → Element
log top = record {
  id = 2;
  html = true;
  page = false;
  scrolls = true;
  contains = true;
  fixed = false;
  scroll_height = 900;
  client_height = 300;
  scroll_top = top;
}

label_passes : All (Passes 1 down) (label ∷ [])
label_passes = (Passes.other refl refl, tt)

log_owns : owner_for 1 none down (label ∷ log 600 ∷ []) ≡ some (log 600)
unfolding owner_for walk decide is_scroller has_room
log_owns = refl

owner_for-Owns_example :
    (has_room 1 (log 600) down ≡ false) × Owns 1 none down (label ∷ log 600 ∷ []) (log 600)
owner_for-Owns_example = owner_for-Owns 1 none down (label ∷ log 600 ∷ []) log_owns

-- A window of a minute has its lines 10 s apart.
minute_step : step_for (span_of 3_000 63_000) ≡ 10_000
unfolding step_for
minute_step = refl

below_a_day : step_for (span_of 3_000 63_000) < 86_400_000
below_a_day = rw minute_step (omega arith)
