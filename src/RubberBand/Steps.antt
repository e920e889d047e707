-- ===== src/RubberBand/Steps.antt =====
-- The runs of frontend/src/rubberband.ts: the input, the frames and the resets as steps.
use Prim.Native.String.{String}
use proxyforward.Common.{ℕ, Bool, true, false, none, List, [], ◌∷◌, ◌≡◌}
use proxyforward.RubberBand.{Element}
use proxyforward.RubberBand.Numbers.{Numbers}
use proxyforward.RubberBand.Bands.{Band, Motion, reset_bands}
use proxyforward.RubberBand.Frame.{tick}
use proxyforward.RubberBand.Input.{
  Document, WheelEvent, on_wheel, on_touch_start, on_touch_move, on_touch_end, on_key,
}

module _ (num : Numbers) where
  -- A frame comes when one is asked for.
  pub data Step (m : Motion num) : Motion num → Type 0 where
    wheel :
        (doc : Document num) (e : WheelEvent num) (now : num.R)
        → Step m (on_wheel num doc e now m).1
    touch_start : (ts : List (ℕ × num.R)) → Step m (on_touch_start num ts m)
    touch_move :
        (doc : Document num) (path : List Element) (now : num.R) (ts : List (ℕ × num.R))
        → Step m (on_touch_move num doc path now ts m).1
    touch_end : Step m (on_touch_end num m)
    key :
        (doc : Document num) (path : List Element) (now : num.R) (modified consumed : Bool)
        (name : String)
        → Step m (on_key num doc path now modified consumed name m)
    frame : (now : num.R) (connected : ℕ → Bool) → m.raf ≡ true → Step m (tick num now connected m)
    reset : Step m (reset_bands num m)

  pub data Reach (m : Motion num) : Motion num → Type 0 where
    here : Reach m m
    next : {u v : Motion num} → Reach m u → Step u v → Reach m v

  -- A first finger comes down when none holds a band: the browser has reported the end of each touch.
  abbrev pub IsFirst : List (ℕ × num.R) → Motion num → Type 0
  IsFirst [] m = Unit
  IsFirst (t ∷ []) m = m.touch_band ≡ none
  IsFirst (t ∷ u ∷ ts) m = Unit

  abbrev pub IsLifted : {m n : Motion num} → Step m n → Type 0
  IsLifted (wheel doc e now) = Unit
  IsLifted {m} (touch_start ts) = IsFirst ts m
  IsLifted (touch_move doc path now ts) = Unit
  IsLifted touch_end = Unit
  IsLifted (key doc path now modified consumed name) = Unit
  IsLifted (frame now connected asked) = Unit
  IsLifted reset = Unit

  -- The runs in which every first finger does.
  pub data Orderly (m : Motion num) : Motion num → Type 0 where
    start : Orderly m m
    then : {u v : Motion num} → Orderly m u → (s : Step u v) → IsLifted s → Orderly m v

  -- The module as it is loaded; the heap has no object yet that anything refers to.
  abbrev pub loaded : (ℕ → Band num) → Motion num
  loaded heap = record {
    heap = heap;
    made = 0;
    bands = [];
    raf = false;
    wheel_band = none;
    touch_band = none;
    touch_id = none;
    touch_y = num.lit 0 1;
    wheel_at = num.lit 0 1;
    dense_src = false;
    guard_until = num.lit 0 1;
    inertia_edge = none;
    inertia_rate = num.lit 0 1;
  }
