-- ===== src/RubberBand/Lost.antt =====
-- The frame of frontend/src/rubberband.ts drops a band whose content is gone from the map alone: the
-- finger that pulls it stays latched to it.
use mathlib.Core.Path.{subst}
use proxyforward.Common.{ℕ, Bool, true, false, some, List, [], ◌∷◌, ◌≡◌, refl, sym, ap, arith}
use proxyforward.Common.Tests.{◌==◌}
use proxyforward.RubberBand.{Element}
use proxyforward.RubberBand.Numbers.{Numbers}
use proxyforward.RubberBand.Bands.{Motion, nought, along, modify, pump, pull, pushed, delete}
use proxyforward.RubberBand.Frame.{tick, tick_all, tick_band}
use proxyforward.RubberBand.Input.{Document, on_touch_move, touch_push}

module _ (num : Numbers) where
  -- A state in which the finger i pulls the one band there is.
  abbrev pub pulling : ℕ → ℕ → Motion num → Motion num
  pulling o i m = record m { bands = o ∷ []; touch_band = some o; touch_id = some i }

  tick-gone :
      (now : num.R) (connected : ℕ → Bool) (o i : ℕ) (m : Motion num)
      → connected (m.heap o).content ≡ false
      → tick num now connected (pulling o i m) ≡ record (pulling o i m) { bands = []; raf = false }
  unfolding tick tick_all tick_band delete
  tick-gone now connected o i m gone =
      let own : ((m.heap o).scroller == (m.heap o).scroller) ≡ true = ground arith in
      rw (gone, own) refl

  -- A move that pushes outward
  abbrev pub Pushes : ℕ → num.R → Motion num → Type 0
  Pushes o y m =
      let dy = num.sub m.touch_y y in
      (num.is_falsy dy ≡ false)
      × (num.le (along num (m.heap o).edge (num.add (m.heap o).raw dy)) (nought num) ≡ false)

  -- The finger is still latched to a band that the map no longer has.
  abbrev pub lost : ℕ → ℕ → Motion num → Motion num
  lost o i m = record (pulling o i m) { bands = []; raf = false }

  -- The finger moves on, each time outward.
  pub data Moves (o i : ℕ) (u : Motion num) : Motion num → Type 0 where
    begun : Moves o i u u
    moved :
        {v : Motion num} (doc : Document num) (path : List Element) (now y : num.R)
        → Moves o i u v
        → Pushes o y v
        → Moves o i u (on_touch_move num doc path now ((i, y) ∷ []) v).1

  move-lost :
      (doc : Document num) (path : List Element) (now y : num.R) (o i : ℕ) (m : Motion num)
      → Pushes o y (lost o i m)
      → let r = on_touch_move num doc path now ((i, y) ∷ []) (lost o i m) in
        (r.0 ≡ true) × (r.1 ≡ lost o i r.1)
  unfolding on_touch_move touch_push pull pump modify pushed
  move-lost doc path now y o i m (nonzero, out) =
      let own : (i == i) ≡ true = ground arith in
      let here : (o == o) ≡ true = ground arith in
      (rw (own, nonzero, here, out) refl, rw (own, nonzero, here, out) refl)

  Moves-lost : {o i : ℕ} {u v : Motion num} → u ≡ lost o i u → Moves o i u v → v ≡ lost o i v
  Moves-lost h begun = h
  Moves-lost {o} {i} h (moved {v} doc path now y run out) =
      let so : v ≡ lost o i v = Moves-lost h run in
      subst
        (λ w.
          (on_touch_move num doc path now ((i, y) ∷ []) w).1
          ≡ lost o i (on_touch_move num doc path now ((i, y) ∷ []) w).1)
        (sym so) (move-lost doc path now y o i v (subst (Pushes o y) so out)).1

  -- When a frame finds the content of the one band, which the finger pulls, gone, then every further
  -- move of the finger is taken from the browser as long as each pushes on, and there is no band to
  -- show it and no frame that is asked for.
  pub tick-move-lost :
      (doc : Document num) (path : List Element) (now later y : num.R) (connected : ℕ → Bool)
      (o i : ℕ) (m : Motion num)
      → connected (m.heap o).content ≡ false
      → {v : Motion num} → Moves o i (tick num now connected (pulling o i m)) v
      → Pushes o y v
      → let r = on_touch_move num doc path later ((i, y) ∷ []) v in
        (r.0 ≡ true) × (r.1.bands ≡ []) × (r.1.raf ≡ false)
  tick-move-lost doc path now later y connected o i m gone {v} run out =
      let start = tick-gone now connected o i m gone in
      let so : v ≡ lost o i v = Moves-lost (subst (λ u. u ≡ lost o i u) (sym start) refl) run in
      let last = move-lost doc path later y o i v (subst (Pushes o y) so out) in
      subst
        (λ w.
          let r = on_touch_move num doc path later ((i, y) ∷ []) w in
          (r.0 ≡ true) × (r.1.bands ≡ []) × (r.1.raf ≡ false))
        (sym so) (last.0, ap (λ w. w.bands) last.1, ap (λ w. w.raf) last.1)
