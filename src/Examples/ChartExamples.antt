-- ===== src/Examples/ChartExamples.antt =====
-- Examples for the chart and its preferences.
use proxyforward.Common.{ℕ, ◌≡◌, refl, Option, none, some, List, [], ◌∷◌}
use proxyforward.Chart.{coverage_runs, runs_from}
use proxyforward.Prefs.{Storage}

-- Three slots of a second, with a gap before the last one.
abbrev starts : List ℕ
starts = 5_000 ∷ 6_000 ∷ 9_000 ∷ []

two_runs :
    coverage_runs 1_000 starts
    ≡ (record { a = 5_000; b = 7_000 }) ∷ (record { a = 9_000; b = 10_000 }) ∷ []
unfolding coverage_runs runs_from
two_runs = refl

abbrev gauge : List (Option ℕ)
gauge = some 3 ∷ some 4 ∷ []

abbrev empty : Storage
empty = λ k. none
