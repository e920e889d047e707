-- ===== src/RubberBand/Input.antt =====
-- The input of frontend/src/rubberband.ts: the wheel, the finger and the keys. Each handler says
-- whether it calls `preventDefault`. What it asks of the document comes with the event: the walk from
-- its target, the page, and the content and height of a scroller.
use Prim.Native.String.{String}
use text.Mathlib.Text.{◌==◌ as str_eq}
use proxyforward.Common.{ℕ, Bool, true, false, not, ◌&&◌, ◌||◌, Option, none, some, List, [], ◌∷◌}
use proxyforward.Common.Tests.{◌==◌, if◌then◌else◌}
use proxyforward.RubberBand.{Element, Direction, down, up, owner_for}
use proxyforward.RubberBand.Numbers.{Numbers}
use proxyforward.RubberBand.Bands.{
  Band, Motion, Scroller, nought, along, modify, get_band, band_for, claim, pump, pull,
}
use proxyforward.RubberBand.Frame.{let_go}

abbrev pub same_way : Direction → Option Direction → Bool
same_way down (some down) = true
same_way up (some up) = true
same_way dir edge = false

module _ (num : Numbers) where
  pub record Document : Type 0 where
    pub px : ℕ
    pub page : Option Element
    pub page_height : Option num.R
    pub scroller_of : Element → Scroller num

  abbrev pub owner_or : Document → Option Element → Option (Scroller num)
  owner_or doc none = none
  owner_or doc (some e) = some (doc.scroller_of e)

  -- `ownerFor`, with what `bandFor` asks of the scroller
  unfoldable pub owner : Document → Direction → List Element → Option (Scroller num)
  owner doc dir path = owner_or doc (owner_for doc.px doc.page dir path)

  -- The unit of a wheel's delta: pixels, lines or pages
  pub data DeltaMode : Type 0 where
    pixels lines pages : DeltaMode

  abbrev pub page_size : Option num.R → num.R
  page_size none = num.lit 800 1
  page_size (some height) = height

  -- `deltaOf`
  abbrev pub delta_of : Option num.R → DeltaMode → num.R → num.R
  delta_of height lines dy = num.mul dy (num.lit 16 1)
  delta_of height pages dy = num.mul dy (page_size height)
  delta_of height pixels dy = dy

  -- `Math.sign(dy)`, at a dy that is not 0
  abbrev pub direction : num.R → Direction
  direction dy = if num.lt (nought num) dy then down else up

  pub record WheelEvent : Type 0 where
    pub ctrl : Bool
    pub mode : DeltaMode
    pub delta_x : num.R
    pub delta_y : num.R
    pub path : List Element

  -- `denseSrc`, from the step and the gap since the last one
  abbrev pub is_dense : num.R → num.R → Bool
  is_dense dy gap =
      not (num.le (num.lit 30 1) (num.abs dy) && num.is_integer dy && num.le (num.lit 25 1) gap)

  -- The test for the tail of a spent fling
  unfoldable pub is_tail : num.R → num.R → Motion num → Bool
  is_tail now dy m =
      num.lt now m.guard_until
      && m.dense_src
      && same_way (direction dy) m.inertia_edge
      && num.lt (num.abs dy) (num.mul (num.lit 8 10) m.inertia_rate)

  -- `bands.has(b.scroller)`
  abbrev pub is_found : Option ℕ → Bool
  is_found none = false
  is_found (some o) = true

  -- `wheelBand`, while it is latched
  abbrev pub latched : num.R → Option ℕ → Motion num → Option ℕ
  latched now none m = none
  latched now (some o) m =
      if not (is_found (get_band num (m.heap o).scroller m))
        || num.lt (num.lit 90 1) (num.sub now (m.heap o).last_input)
      then none
      else some o

  -- The springs that a wheel's burst takes
  abbrev pub tuned : Bool → Band num → Band num
  tuned dense b = record b {
    omega = if dense then num.lit 80 1 else num.lit 34 1;
    rel_omega = if dense then num.lit 26 1 else num.lit 14 1;
    leak = dense;
  }

  abbrev pub wheel_claim : Direction → Option ℕ × Motion num → Option ℕ × Motion num
  wheel_claim dir (none, m) = (none, m)
  wheel_claim dir (some o, m) =
      let next = modify num o (tuned m.dense_src) (claim num o dir true m) in
      (some o, record next { wheel_band = some o })

  -- A band for a new burst, if a scroller owns it
  abbrev pub wheel_start :
      Option (Scroller num) → num.R → Direction → Motion num → Option ℕ × Motion num
  wheel_start none now dir m = (none, m)
  wheel_start (some s) now dir m = wheel_claim dir (band_for num s now m)

  abbrev pub wheel_latch :
      Document → WheelEvent → num.R → num.R → Option ℕ → Motion num → Option ℕ × Motion num
  wheel_latch doc e now dy (some o) m = (some o, m)
  wheel_latch doc e now dy none m =
      wheel_start (owner doc (direction dy) e.path) now (direction dy)
        (record m { wheel_band = none })

  abbrev pub wheel_keep : Bool × Motion num → Bool × Motion num
  wheel_keep (true, m) = (true, m)
  wheel_keep (false, m) = (false, record m { wheel_band = none })

  abbrev pub wheel_pull : num.R → num.R → Option ℕ × Motion num → Bool × Motion num
  wheel_pull now dy (none, m) = (false, m)
  wheel_pull now dy (some o, m) = wheel_keep (pull num now o dy m)

  -- A push of the wheel that is no tail
  unfoldable pub wheel_push : Document → WheelEvent → num.R → num.R → Motion num → Bool × Motion num
  unfolding owner
  wheel_push doc e now dy m =
      wheel_pull now dy (wheel_latch doc e now dy (latched now m.wheel_band m) m)

  -- `onWheel`
  unfoldable pub on_wheel : Document → WheelEvent → num.R → Motion num → Bool × Motion num
  unfolding wheel_push is_tail
  on_wheel doc e now m =
      let dy = delta_of doc.page_height e.mode e.delta_y in
      let m1 = record m { wheel_at = now; dense_src = is_dense dy (num.sub now m.wheel_at) } in
      if e.ctrl
      then (false, m)
      else if num.is_falsy dy || num.lt (num.abs dy) (num.abs e.delta_x)
      then (false, m)
      else if is_tail now dy m1
      then (true, record m1 { guard_until = num.add now (num.lit 90 1) })
      else wheel_push doc e now dy m1

  abbrev pub release : Option ℕ → Motion num → Motion num
  release none m = m
  release (some o) m =
      pump num (modify num o (λ b. record (let_go num b) { auto_release = true }) m)

  -- `onTouchEnd`
  unfoldable pub on_touch_end : Motion num → Motion num
  on_touch_end m = record (release m.touch_band m) { touch_band = none; touch_id = none }

  -- `onTouchStart`: the fingers on the screen, with the identifier and the `clientY` of each
  unfoldable pub on_touch_start : List (ℕ × num.R) → Motion num → Motion num
  unfolding on_touch_end
  on_touch_start [] m = on_touch_end m
  on_touch_start ((i, y) ∷ []) m = record m { touch_id = some i; touch_y = y; touch_band = none }
  on_touch_start (t ∷ u ∷ ts) m = on_touch_end m

  abbrev pub touch_claim : Direction → Option ℕ × Motion num → Option ℕ × Motion num
  touch_claim dir (none, m) = (none, m)
  touch_claim dir (some o, m) = (some o, record (claim num o dir false m) { touch_band = some o })

  abbrev pub touch_owned :
      Option (Scroller num) → num.R → Direction → Motion num → Option ℕ × Motion num
  touch_owned none now dir m = (none, m)
  touch_owned (some s) now dir m = touch_claim dir (band_for num s now m)

  abbrev pub touch_latch :
      Document → List Element → num.R → num.R → Option ℕ → Motion num → Option ℕ × Motion num
  touch_latch doc path now dy (some o) m = (some o, m)
  touch_latch doc path now dy none m =
      touch_owned (owner doc (direction dy) path) now (direction dy) m

  abbrev pub touch_keep : Bool × Motion num → Bool × Motion num
  touch_keep (true, m) = (true, m)
  touch_keep (false, m) = (false, record m { touch_band = none })

  abbrev pub touch_pull : num.R → num.R → Option ℕ × Motion num → Bool × Motion num
  touch_pull now dy (none, m) = (false, m)
  touch_pull now dy (some o, m) =
      touch_keep (pull num now o dy (modify num o (λ b. record b { omega = num.lit 120 1 }) m))

  -- A move of the finger by dy
  unfoldable pub touch_push :
      Document → List Element → num.R → num.R → Motion num → Bool × Motion num
  unfolding owner
  touch_push doc path now dy m = touch_pull now dy (touch_latch doc path now dy m.touch_band m)

  abbrev pub is_finger : Option ℕ → ℕ → Bool
  is_finger none i = false
  is_finger (some j) i = i == j

  -- `onTouchMove`: `path` is the walk from `touchFrom`.
  unfoldable pub on_touch_move :
      Document → List Element → num.R → List (ℕ × num.R) → Motion num → Bool × Motion num
  unfolding touch_push
  on_touch_move doc path now [] m = (false, m)
  on_touch_move doc path now (t ∷ u ∷ ts) m = (false, m)
  on_touch_move doc path now ((i, y) ∷ []) m =
      let dy = num.sub m.touch_y y in
      let moved = record m { touch_y = y } in
      if not (is_finger m.touch_id i)
      then (false, m)
      else if num.is_falsy dy
      then (false, moved)
      else touch_push doc path now dy moved

  -- The impulse of a key
  unfoldable pub kicked : Direction → num.R → Band num → Band num
  kicked dir now b = record b {
    edge = dir;
    held = false;
    auto_release = true;
    target = nought num;
    raw = nought num;
    vel = num.mul (num.neg (along num dir (num.lit 1 1))) (num.lit 900 1);
    last_input = now;
  }

  abbrev pub kick : Direction → num.R → Option ℕ × Motion num → Motion num
  kick dir now (none, m) = m
  kick dir now (some o, m) = pump num (modify num o (kicked dir now) m)

  abbrev pub key_owned : Option (Scroller num) → num.R → Direction → Motion num → Motion num
  key_owned none now dir m = m
  key_owned (some s) now dir m = kick dir now (band_for num s now m)

  -- The rest of `onKey`, for a key of `KEY_DIR`
  abbrev pub key_push : Document → List Element → num.R → Option Direction → Motion num → Motion num
  key_push doc path now none m = m
  key_push doc path now (some dir) m = key_owned (owner doc dir path) now dir m

  -- `KEY_DIR`
  abbrev pub key_dir : String → Option Direction
  key_dir key =
      if str_eq key "PageDown" || str_eq key "End" || str_eq key "ArrowDown" || str_eq key " "
      then some down
      else if str_eq key "PageUp" || str_eq key "Home" || str_eq key "ArrowUp"
      then some up
      else none

  -- `onKey`: with a modifier, or where the target takes the key itself, nothing. `path` is the
  -- walk from the target or from the element in focus.
  unfoldable pub on_key :
      Document → List Element → num.R → Bool → Bool → String → Motion num → Motion num
  unfolding kicked owner
  on_key doc path now modified consumed key m =
      if modified || consumed then m else key_push doc path now (key_dir key) m
