-- ===== src/Chart/Coverage.antt =====
-- The uptime strip of frontend/src/components/BandwidthChart.tsx.
use mathlib.Core.Path.{subst}
use proxyforward.Common.{
  ℕ, ◌+◌, ◌*◌, ◌≤◌, ◌≡◌, refl, sym, List, [], ◌∷◌, true, false, arith, inl, inr,
}
use proxyforward.Common.Tests.{leb, Bool-cases}
use proxyforward.Common.Lists.{All, All-map}
use proxyforward.Chart.{Run, runs_from, coverage_runs}

-- The buckets are in the order of their starts, from t on.
abbrev pub Ascends : ℕ → List ℕ → Type 0
Ascends t [] = Unit
Ascends t (u ∷ us) = (t ≤ u) × Ascends u us

abbrev pub IsAscending : List ℕ → Type 0
IsAscending [] = Unit
IsAscending (t ∷ ts) = Ascends t ts

-- The slot that starts at t lies in one of the runs.
pub data Covered (ms t : ℕ) : List Run → Type 0 where
  here : {r : Run} {rs : List Run} → r.a ≤ t → t + ms ≤ r.b → Covered ms t (r ∷ rs)
  there : {r : Run} {rs : List Run} → Covered ms t rs → Covered ms t (r ∷ rs)

-- Between two runs there is more than half a slot, and every run starts from the bound on.
abbrev pub Separated : ℕ → ℕ → List Run → Type 0
Separated ms bound [] = Unit
Separated ms bound (r ∷ rs) = (bound ≤ 2 * r.a) × (r.a ≤ r.b) × Separated ms (2 * r.b + ms + 1) rs

runs-join :
    (ms : ℕ) (last : Run) (t : ℕ) (ts : List ℕ)
    → leb (2 * t) (2 * last.b + ms) ≡ true
    → runs_from ms last (t ∷ ts) ≡ runs_from ms (record { a = last.a; b = t + ms }) ts
unfolding runs_from
runs-join ms last t ts e = rw (runs_from, e) refl

runs-split :
    (ms : ℕ) (last : Run) (t : ℕ) (ts : List ℕ)
    → leb (2 * t) (2 * last.b + ms) ≡ false
    → runs_from ms last (t ∷ ts) ≡ last ∷ runs_from ms (record { a = t; b = t + ms }) ts
unfolding runs_from
runs-split ms last t ts e = rw (runs_from, e) refl

-- What the last run covers stays covered.
Covered-keeps :
    (ms u : ℕ) (a t : ℕ) (ts : List ℕ)
    → a ≤ u
    → u ≤ t
    → Ascends t ts
    → Covered ms u (runs_from ms (record { a = a; b = t + ms }) ts)
Covered-keeps ms u a t [] l k h =
    let fits : u + ms ≤ t + ms = omega arith in unfold runs_from in Covered.here l fits
Covered-keeps ms u a t (v ∷ vs) l k (o, h) =
    let last : Run = record { a = a; b = t + ms } in
    elim (Bool-cases (leb (2 * v) (2 * (t + ms) + ms))) [
      | inl e ↦ rw (runs-join ms last v vs e) (Covered-keeps ms u a v vs l (omega arith) h)
      | inr e ↦
          let fits : u + ms ≤ t + ms = omega arith in
          rw (runs-split ms last v vs e) (Covered.here l fits)
    ]

by_runs :
    (ms : ℕ) (us : List ℕ) {rs ss : List Run}
    → rs ≡ ss
    → All (λ u. Covered ms u ss) us
    → All (λ u. Covered ms u rs) us
by_runs ms us e h = subst (λ rs. All (λ u. Covered ms u rs) us) (sym e) h

Covered-all :
    (ms a t : ℕ) (ts : List ℕ)
    → a ≤ t
    → Ascends t ts
    → All (λ u. Covered ms u (runs_from ms (record { a = a; b = t + ms }) ts)) ts
Covered-all ms a t [] l h = tt
Covered-all ms a t (v ∷ vs) l (o, h) =
    let last : Run = record { a = a; b = t + ms } in
    let fresh : List Run = runs_from ms (record { a = v; b = v + ms }) vs in
    elim (Bool-cases (leb (2 * v) (2 * (t + ms) + ms))) [
      | inl e ↦ by_runs ms (v ∷ vs) (runs-join ms last v vs e) (
        Covered-keeps ms v a v vs (omega arith) (omega arith) h,
        Covered-all ms a v vs (omega arith) h,
      )
      | inr e ↦ by_runs ms (v ∷ vs) (runs-split ms last v vs e) (
        Covered.there (Covered-keeps ms v v v vs (omega arith) (omega arith) h),
        All-map {P = λ u. Covered ms u fresh} {Q = λ u. Covered ms u (last ∷ fresh)}
            (λ u c. Covered.there c) vs (Covered-all ms v v vs (omega arith) h),
      )
    ]

separated :
    (ms bound a t : ℕ) (ts : List ℕ)
    → bound ≤ 2 * a
    → a ≤ t
    → Ascends t ts
    → Separated ms bound (runs_from ms (record { a = a; b = t + ms }) ts)
separated ms bound a t [] l k h = unfold runs_from in (l, omega arith, tt)
separated ms bound a t (v ∷ vs) l k (o, h) =
    let last : Run = record { a = a; b = t + ms } in
    elim (Bool-cases (leb (2 * v) (2 * (t + ms) + ms))) [
      | inl e ↦ rw (runs-join ms last v vs e) (separated ms bound a v vs l (omega arith) h)
      | inr e ↦ rw (runs-split ms last v vs e) (
        l,
        omega arith,
        separated ms (2 * (t + ms) + ms + 1) v v vs (ground arith) (omega arith) h,
      )
    ]

-- For buckets in the order of their starts: every slot lies in a run, the runs are in order, and
-- between two of them there is more than half a slot.
pub coverage_runs-Separated :
    (ms : ℕ) (ts : List ℕ)
    → IsAscending ts
    → All (λ t. Covered ms t (coverage_runs ms ts)) ts × Separated ms 0 (coverage_runs ms ts)
unfolding coverage_runs
coverage_runs-Separated ms [] h = (tt, tt)
coverage_runs-Separated ms (t ∷ ts) h = (
  (Covered-keeps ms t t t ts (omega arith) (omega arith) h, Covered-all ms t t ts (omega arith) h),
  separated ms 0 t t ts (omega arith) (omega arith) h,
)
