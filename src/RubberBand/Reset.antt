-- ===== src/RubberBand/Reset.antt =====
-- What `resetBands` of frontend/src/rubberband.ts leaves: no band.
use proxyforward.Common.{ℕ, true, false, not, List, [], ◌∷◌, ◌≡◌, sym, ap, ◌∙◌, inl, inr, arith}
use proxyforward.Common.Tests.{◌==◌}
use proxyforward.Common.Lists.{All, IsIn, All-filter, all_in, none_left}
use proxyforward.RubberBand.Numbers.{Numbers}
use proxyforward.RubberBand.Bands.{Motion, delete, rest, rest_all, reset_bands}

module _ (num : Numbers) where
  left :
      (o : ℕ) (os : List ℕ) (m : Motion num) (i : ℕ)
      → IsIn i (o ∷ os)
      → not ((m.heap i).scroller == (m.heap o).scroller) ≡ true
      → IsIn i os
  left o os m i (inr g) kept = g
  left o os m i (inl e) kept =
      let scrollers : (m.heap i).scroller ≡ (m.heap o).scroller = ap (λ k. (m.heap k).scroller) e in
      let same : ((m.heap i).scroller == (m.heap o).scroller) ≡ true = ground arith in
      let clash : true ≡ false = sym kept ∙ ap not same in cc

  -- A band at rest leaves the map, with all of its scroller.
  rest-IsIn :
      (o : ℕ) (os : List ℕ) (m : Motion num)
      → All (λ i. IsIn i (o ∷ os)) m.bands
      → All (λ i. IsIn i os) (rest num o m).bands
  unfolding rest delete
  rest-IsIn o os m h =
      All-filter {P = λ i. IsIn i (o ∷ os)} {Q = λ i. IsIn i os}
        (λ i. not ((m.heap i).scroller == (m.heap o).scroller)) (left o os m) m.bands h

  rest_all-empty :
      (os : List ℕ) (m : Motion num) → All (λ i. IsIn i os) m.bands → (rest_all num os m).bands ≡ []
  rest_all-empty [] m h = none_left m.bands h
  rest_all-empty (o ∷ os) m h = rest_all-empty os (rest num o m) (rest-IsIn o os m h)

  pub reset_bands-empty : (m : Motion num) → (reset_bands num m).bands ≡ []
  unfolding reset_bands
  reset_bands-empty m = rest_all-empty m.bands m (all_in m.bands)
