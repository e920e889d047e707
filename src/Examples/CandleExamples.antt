-- ===== src/Examples/CandleExamples.antt =====
-- Examples for the buckets of the bandwidth chart.
use proxyforward.Common.{ℕ, ◌*◌, ◌≤◌, ◌≡◌, List, [], ◌∷◌}
use proxyforward.Common.Lists.{length}
use proxyforward.History.{candles}
use proxyforward.Chart.Buckets.{Bucket, zero_bucket, total, highest, coalesced}
use proxyforward.Chart.Candles.{coalesced-keeps}
use proxyforward.Chart.Hover.{Plotted}

abbrev bucket : ℕ → ℕ → Bucket
bucket t n = record (zero_bucket t) { bytes_in = n; bytes_out = 2 * n; ih = n; oh = 3 * n }

abbrev buckets : List Bucket
buckets = bucket 1_000 5 ∷ bucket 2_000 9 ∷ bucket 4_000 1 ∷ []

coalesced-keeps_example :
    let bs = (coalesced candles buckets 1_000).0 in
    (length bs ≤ 150)
    × (total (λ b. b.bytes_in) bs ≡ total (λ b. b.bytes_in) buckets)
    × (total (λ b. b.bytes_out) bs ≡ total (λ b. b.bytes_out) buckets)
    × (highest (λ b. b.ih) bs ≡ highest (λ b. b.ih) buckets)
    × (highest (λ b. b.oh) bs ≡ highest (λ b. b.oh) buckets)
coalesced-keeps_example = coalesced-keeps buckets 1_000

-- 400 px for the four seconds that the buckets span.
abbrev plotted : Plotted
plotted = record { t0 = 1_000; t1 = 5_000; span = 4_000; pad_l = 68; plot_w = 400 }
