-- ===== src/Chart/Buckets.antt =====
-- The buckets of the bandwidth chart, `Bucket` of frontend/wailsjs/go/models.ts, and what
-- frontend/src/components/BandwidthChart.tsx makes of them. Times and byte counts are whole; a rate or
-- a gauge is counted in a unit that is fine enough for the data, and a gauge below 0 is unknown.
use proxyforward.Common.{
  ℕ, zero, suc, ◌+◌, ◌-◌, ◌*◌, ◌/◌, Bool, true, false, not, ◌&&◌, Option, none, some, List, [], ◌∷◌,
  map,
}
use proxyforward.Common.Int.{ℤ, pos, negsuc}
use proxyforward.Common.Tests.{if◌then◌else◌, leb, ltb}
use proxyforward.Common.Lists.{length}
use proxyforward.History.{ChartMode, line, candles, bars}
use proxyforward.Chart.{merge_gauge_close}

-- `Bucket`: its `in` and `out` are the bytes. Then the open, high, low and close of the rates in and
-- out, of the connections, the round trip, the players and the loss.
pub record Bucket : Type 0 where
  pub t : ℕ
  pub bytes_in : ℕ
  pub bytes_out : ℕ
  pub io : ℕ
  pub ih : ℕ
  pub il : ℕ
  pub ic : ℕ
  pub oo : ℕ
  pub oh : ℕ
  pub ol : ℕ
  pub oc : ℕ
  pub co : ℤ
  pub ch : ℤ
  pub cl : ℤ
  pub cc : ℤ
  pub ro : ℤ
  pub rh : ℤ
  pub rl : ℤ
  pub rc : ℤ
  pub po : ℤ
  pub ph : ℤ
  pub pl : ℤ
  pub pc : ℤ
  pub lo : ℤ
  pub lh : ℤ
  pub ll : ℤ
  pub lc : ℤ

-- `zeroBucket`
unfoldable pub zero_bucket : ℕ → Bucket
zero_bucket t = record {
  t = t;
  bytes_in = 0;
  bytes_out = 0;
  io = 0;
  ih = 0;
  il = 0;
  ic = 0;
  oo = 0;
  oh = 0;
  ol = 0;
  oc = 0;
  co = negsuc 0;
  ch = negsuc 0;
  cl = negsuc 0;
  cc = negsuc 0;
  ro = negsuc 0;
  rh = negsuc 0;
  rl = negsuc 0;
  rc = negsuc 0;
  po = negsuc 0;
  ph = negsuc 0;
  pl = negsuc 0;
  pc = negsuc 0;
  lo = negsuc 0;
  lh = negsuc 0;
  ll = negsuc 0;
  lc = negsuc 0;
}

-- `Plot`: a rate is a fraction of bytes over seconds.
pub record Plot : Type 0 where
  pub t : ℕ
  pub dn : ℕ × ℕ
  pub up : ℕ × ℕ
  pub conn : Option ℕ
  pub rtt : Option ℕ

-- `v >= 0 ? v : null`
abbrev pub known : ℤ → Option ℕ
known (pos n) = some n
known (negsuc n) = none

-- `b.t + bucketMs > nowMs`, for the last bucket
abbrev pub is_partial : ℕ → ℕ → Bool → Bucket → Bool
is_partial ms now is_last b = is_last && ltb now (b.t + ms)

abbrev pub is_candles : ChartMode → Bool
is_candles candles = true
is_candles line = false
is_candles bars = false

unfoldable pub to_plot : ℕ → ChartMode → ℕ → Bool → Bucket → Plot
to_plot ms mode now is_last b =
    let partial = is_partial ms now is_last b in
    record {
      t = b.t;
      dn = if partial then (b.oc, 1) else (b.bytes_out * 1000, ms);
      up =
          if is_candles mode
          then (b.ic, 1)
          else if partial
          then (b.ic, 1)
          else (b.bytes_in * 1000, ms);
      conn = known b.cc;
      rtt = known b.rc;
    }

-- `toPlots`
unfoldable pub to_plots : ℕ → ChartMode → ℕ → List Bucket → List Plot
unfolding to_plot
to_plots ms mode now [] = []
to_plots ms mode now (b ∷ []) = to_plot ms mode now true b ∷ []
to_plots ms mode now (b ∷ c ∷ bs) = to_plot ms mode now false b ∷ to_plots ms mode now (c ∷ bs)

abbrev pub max_of : ℕ → ℕ → ℕ
max_of a b = if leb a b then b else a

abbrev pub min_of : ℕ → ℕ → ℕ
min_of a b = if leb a b then a else b

abbrev pub folded : (ℕ → ℕ → ℕ) → (Bucket → ℕ) → List Bucket → ℕ
folded op get [] = 0
folded op get (b ∷ bs) = op (get b) (folded op get bs)

-- `reduce((a, b) => a + b.k, 0)`
abbrev pub total : (Bucket → ℕ) → List Bucket → ℕ
total = folded (λ a b. a + b)

-- `Math.max(...)` of what is not negative
abbrev pub highest : (Bucket → ℕ) → List Bucket → ℕ
highest = folded max_of

-- `Math.min(...)` of a first bucket and others
abbrev pub lowest : (Bucket → ℕ) → Bucket → List Bucket → ℕ
lowest get b [] = get b
lowest get b (c ∷ bs) = min_of (get b) (lowest get c bs)

abbrev pub last_of : Bucket → List Bucket → Bucket
last_of b [] = b
last_of b (c ∷ bs) = last_of c bs

-- A candle of a group: its first bucket and the others
unfoldable pub merged : Bucket × List Bucket → Bucket
merged (first, bs) =
    let last = last_of first bs in
    record first {
      bytes_in = total (λ b. b.bytes_in) (first ∷ bs);
      bytes_out = total (λ b. b.bytes_out) (first ∷ bs);
      oh = highest (λ b. b.oh) (first ∷ bs);
      ol = lowest (λ b. b.ol) first bs;
      oc = last.oc;
      ih = highest (λ b. b.ih) (first ∷ bs);
      il = lowest (λ b. b.il) first bs;
      ic = last.ic;
      cc = merge_gauge_close (map (λ b. b.cc) (first ∷ bs));
      rc = merge_gauge_close (map (λ b. b.rc) (first ∷ bs));
    }

abbrev pub split_at {ℓ} : {A : Type ℓ} → ℕ → List A → List A × List A
split_at zero xs = ([], xs)
split_at (suc n) [] = ([], [])
split_at (suc n) (x ∷ xs) = let (a, b) = split_at n xs in (x ∷ a, b)

-- The rounds of the loop `i += k`, with their `slice(i, i + k)`; fuel is the number of buckets.
abbrev pub groups : ℕ → ℕ → List Bucket → List (Bucket × List Bucket)
groups fuel k [] = []
groups zero k (b ∷ bs) = []
groups (suc fuel) k (b ∷ bs) =
    let (others, rest) = split_at (k - 1) bs in (b, others) ∷ groups fuel k rest

-- `Math.ceil(rawBuckets.length / 150)`
abbrev pub group_size : List Bucket → ℕ
group_size bs = (length bs + 149) / 150

-- The buckets and their width, as they are drawn.
unfoldable pub coalesced : ChartMode → List Bucket → ℕ → List Bucket × ℕ
unfolding merged
coalesced mode raw ms =
    if not (is_candles mode)
    then (raw, ms)
    else if leb (length raw) 150
    then (raw, ms)
    else (map merged (groups (length raw) (group_size raw) raw), ms * group_size raw)
