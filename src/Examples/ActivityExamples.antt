-- ===== src/Examples/ActivityExamples.antt =====
-- Examples for the activity log.
use proxyforward.Common.{ℕ, ◌≡◌, List, [], ◌∷◌, arith}
use proxyforward.Common.Decimal.{Text, codes, decimal}
use proxyforward.Activity.{Entry, min_rank, filtered, filtered-raised}

abbrev entry : ℕ → Text → Entry
entry n level = record { seq = n; time_ms = 0; level = level; msg = codes "up"; attrs = [] }

abbrev entries : List Entry
entries =
    entry 1 (codes "debug")
    ∷ entry 2 (codes "warn")
    ∷ entry 3 (codes "error")
    ∷ entry 4 (codes "trace")
    ∷ []

errors_of_info :
    filtered
      (λ t. t)
      (λ t. t)
      decimal
      (codes "error")
      []
      (filtered (λ t. t) (λ t. t) decimal (codes "info") [] entries)
    ≡ filtered (λ t. t) (λ t. t) decimal (codes "error") [] entries
unfolding min_rank
errors_of_info =
    filtered-raised (λ t. t) (λ t. t) decimal (codes "info") (codes "error") [] entries
      (omega arith)
