-- ===== src/RubberBand/Due.antt =====
-- The frames of frontend/src/rubberband.ts: while the map has a band, a frame is asked for, so no band
-- is left where it is.
use mathlib.Core.Path.{subst}
use Prim.Native.String.{String}
use proxyforward.Common.{
  ℕ, Bool, true, false, Option, none, some, List, [], ◌∷◌, ◌≡◌, ◌⊎◌, refl, sym, ◌∙◌, inl, inr,
}
use proxyforward.RubberBand.{Element, Direction}
use proxyforward.RubberBand.Numbers.{Numbers}
use proxyforward.RubberBand.Bands.{
  Band, Motion, Scroller, get_band, make_band, or_make, band_for, pump, pull, ask_frame,
}
use proxyforward.RubberBand.Frame.{tick, tick_all}
use proxyforward.RubberBand.Input.{
  Document, WheelEvent, owner, delta_of, direction, is_dense, latched, wheel_claim, wheel_start,
  wheel_latch, wheel_keep, wheel_pull, wheel_push, on_wheel, release, on_touch_end, on_touch_start,
  touch_claim, touch_owned, touch_latch, touch_keep, touch_pull, touch_push, on_touch_move, kick,
  key_owned, key_push, key_dir, on_key,
}
use proxyforward.RubberBand.Steps.{
  Step, wheel, touch_start, touch_move, touch_end, key, frame, reset, Reach, here, next, loaded,
}
use proxyforward.RubberBand.Cases.{
  pump-cases, pull-cases, on_wheel-cases, on_touch_move-cases, on_key-cases,
}
use proxyforward.RubberBand.Reset.{reset_bands-empty}

module _ (num : Numbers) where
  -- No band, or a frame that is asked for
  abbrev pub IsDue : Motion num → Type 0
  IsDue m = (m.bands ≡ []) ⊎ (m.raf ≡ true)

  ask_frame-IsDue : (os : List ℕ) (m : Motion num) → m.bands ≡ os → IsDue (ask_frame num os m)
  ask_frame-IsDue [] m e = inl e
  ask_frame-IsDue (o ∷ os) m e = inr refl

  pump-IsDue : (m : Motion num) → IsDue (pump num m)
  pump-IsDue m = elim (pump-cases num m) [
    | inl (asked, e) ↦ subst IsDue (sym e) (inr asked)
    | inr e ↦ subst IsDue (sym e) (ask_frame-IsDue m.bands m refl)
  ]

  pull-IsDue : (now : num.R) (o : ℕ) (dy : num.R) (m : Motion num) → IsDue (pull num now o dy m).1
  pull-IsDue now o dy m = elim (pull-cases num now o dy m) [
    | inl e ↦ subst (λ r. IsDue r.1) (sym e) (pump-IsDue _)
    | inr e ↦ subst (λ r. IsDue r.1) (sym e) (pump-IsDue _)
  ]

  -- A handler that has no band to push leaves the frames as they are.
  abbrev Spares : Motion num → Option ℕ × Motion num → Type 0
  Spares m r = r.0 ≡ none → (r.1.bands ≡ m.bands) × (r.1.raf ≡ m.raf)

  Spares-IsDue : (m n : Motion num) → (n.bands ≡ m.bands) × (n.raf ≡ m.raf) → IsDue m → IsDue n
  Spares-IsDue m n (e, f) (inl h) = inl (e ∙ h)
  Spares-IsDue m n (e, f) (inr h) = inr (f ∙ h)

  make_band-Spares :
      (s : Scroller num) (c : Option ℕ) (now : num.R) (m : Motion num)
      → Spares m (make_band num s c now m)
  unfolding make_band
  make_band-Spares s none now m = λ e. (refl, refl)
  make_band-Spares s (some c) now m = λ e. cc

  or_make-Spares :
      (f : Option ℕ) (s : Scroller num) (now : num.R) (m : Motion num)
      → Spares m (or_make num f s now m)
  or_make-Spares none s now m = make_band-Spares s s.content now m
  or_make-Spares (some o) s now m = λ e. cc

  band_for-Spares :
      (s : Scroller num) (now : num.R) (m : Motion num) → Spares m (band_for num s now m)
  unfolding band_for
  band_for-Spares s now m = or_make-Spares (get_band num s.id m) s now m

  wheel_claim-Spares :
      (dir : Direction) (m : Motion num) (r : Option ℕ × Motion num)
      → Spares m r
      → Spares m (wheel_claim num dir r)
  wheel_claim-Spares dir m (none, n) h = h
  wheel_claim-Spares dir m (some o, n) h = λ e. cc

  wheel_start-Spares :
      (s : Option (Scroller num)) (now : num.R) (dir : Direction) (m : Motion num)
      → Spares m (wheel_start num s now dir m)
  wheel_start-Spares none now dir m = λ e. (refl, refl)
  wheel_start-Spares (some s) now dir m =
      wheel_claim-Spares dir m (band_for num s now m) (band_for-Spares s now m)

  wheel_latch-Spares :
      (doc : Document num) (e : WheelEvent num) (now dy : num.R) (b : Option ℕ) (m : Motion num)
      → Spares m (wheel_latch num doc e now dy b m)
  wheel_latch-Spares doc e now dy none m =
      wheel_start-Spares (owner num doc (direction num dy) e.path) now (direction num dy)
        (record m { wheel_band = none })
  wheel_latch-Spares doc e now dy (some o) m = λ h. cc

  wheel_keep-IsDue : (r : Bool × Motion num) → IsDue r.1 → IsDue (wheel_keep num r).1
  wheel_keep-IsDue (true, m) h = h
  wheel_keep-IsDue (false, m) h = h

  wheel_pull-IsDue :
      (now dy : num.R) (m : Motion num) (r : Option ℕ × Motion num)
      → Spares m r
      → IsDue m
      → IsDue (wheel_pull num now dy r).1
  wheel_pull-IsDue now dy m (none, n) s h = Spares-IsDue m n (s refl) h
  wheel_pull-IsDue now dy m (some o, n) s h =
      wheel_keep-IsDue (pull num now o dy n) (pull-IsDue now o dy n)

  wheel_push-IsDue :
      (doc : Document num) (e : WheelEvent num) (now dy : num.R) (m : Motion num)
      → IsDue m
      → IsDue (wheel_push num doc e now dy m).1
  unfolding wheel_push
  wheel_push-IsDue doc e now dy m h =
      let b = latched num now m.wheel_band m in
      wheel_pull-IsDue now dy m (wheel_latch num doc e now dy b m)
        (wheel_latch-Spares doc e now dy b m) h

  on_wheel-IsDue :
      (doc : Document num) (e : WheelEvent num) (now : num.R) (m : Motion num)
      → IsDue m
      → IsDue (on_wheel num doc e now m).1
  on_wheel-IsDue doc e now m h = elim (on_wheel-cases num doc e now m) [
    | inl a ↦ subst (λ r. IsDue r.1) (sym a) h
    | inr (inl a) ↦ subst (λ r. IsDue r.1) (sym a) h
    | inr (inr a) ↦
        let dy = delta_of num doc.page_height e.mode e.delta_y in
        let heard : Motion num = record m {
          wheel_at = now;
          dense_src = is_dense num dy (num.sub now m.wheel_at);
        } in
        subst (λ r. IsDue r.1) (sym a) (wheel_push-IsDue doc e now dy heard h)
  ]

  release-IsDue : (b : Option ℕ) (m : Motion num) → IsDue m → IsDue (release num b m)
  release-IsDue none m h = h
  release-IsDue (some o) m h = pump-IsDue _

  on_touch_end-IsDue : (m : Motion num) → IsDue m → IsDue (on_touch_end num m)
  unfolding on_touch_end
  on_touch_end-IsDue m h = release-IsDue m.touch_band m h

  on_touch_start-IsDue :
      (ts : List (ℕ × num.R)) (m : Motion num) → IsDue m → IsDue (on_touch_start num ts m)
  unfolding on_touch_start
  on_touch_start-IsDue [] m h = on_touch_end-IsDue m h
  on_touch_start-IsDue ((i, y) ∷ []) m h = h
  on_touch_start-IsDue (t ∷ u ∷ ts) m h = on_touch_end-IsDue m h

  touch_claim-Spares :
      (dir : Direction) (m : Motion num) (r : Option ℕ × Motion num)
      → Spares m r
      → Spares m (touch_claim num dir r)
  touch_claim-Spares dir m (none, n) h = h
  touch_claim-Spares dir m (some o, n) h = λ e. cc

  touch_owned-Spares :
      (s : Option (Scroller num)) (now : num.R) (dir : Direction) (m : Motion num)
      → Spares m (touch_owned num s now dir m)
  touch_owned-Spares none now dir m = λ e. (refl, refl)
  touch_owned-Spares (some s) now dir m =
      touch_claim-Spares dir m (band_for num s now m) (band_for-Spares s now m)

  touch_latch-Spares :
      (doc : Document num) (path : List Element) (now dy : num.R) (b : Option ℕ) (m : Motion num)
      → Spares m (touch_latch num doc path now dy b m)
  touch_latch-Spares doc path now dy none m =
      touch_owned-Spares (owner num doc (direction num dy) path) now (direction num dy) m
  touch_latch-Spares doc path now dy (some o) m = λ h. cc

  touch_keep-IsDue : (r : Bool × Motion num) → IsDue r.1 → IsDue (touch_keep num r).1
  touch_keep-IsDue (true, m) h = h
  touch_keep-IsDue (false, m) h = h

  touch_pull-IsDue :
      (now dy : num.R) (m : Motion num) (r : Option ℕ × Motion num)
      → Spares m r
      → IsDue m
      → IsDue (touch_pull num now dy r).1
  touch_pull-IsDue now dy m (none, n) s h = Spares-IsDue m n (s refl) h
  touch_pull-IsDue now dy m (some o, n) s h = touch_keep-IsDue _ (pull-IsDue now o dy _)

  touch_push-IsDue :
      (doc : Document num) (path : List Element) (now dy : num.R) (m : Motion num)
      → IsDue m
      → IsDue (touch_push num doc path now dy m).1
  unfolding touch_push
  touch_push-IsDue doc path now dy m h =
      touch_pull-IsDue now dy m (touch_latch num doc path now dy m.touch_band m)
        (touch_latch-Spares doc path now dy m.touch_band m) h

  on_touch_move-IsDue :
      (doc : Document num) (path : List Element) (now : num.R) (ts : List (ℕ × num.R))
      (m : Motion num)
      → IsDue m
      → IsDue (on_touch_move num doc path now ts m).1
  unfolding on_touch_move
  on_touch_move-IsDue doc path now [] m h = h
  on_touch_move-IsDue doc path now ((i, y) ∷ []) m h =
      elim (on_touch_move-cases num doc path now i y m) [
        | inl a ↦ subst (λ r. IsDue r.1) (sym a) h
        | inr (inl a) ↦ subst (λ r. IsDue r.1) (sym a) h
        | inr (inr a) ↦
            subst (λ r. IsDue r.1) (sym a)
              (touch_push-IsDue doc path now (num.sub m.touch_y y) (record m { touch_y = y }) h)
      ]
  on_touch_move-IsDue doc path now (t ∷ u ∷ ts) m h = h

  kick-IsDue :
      (dir : Direction) (now : num.R) (m : Motion num) (r : Option ℕ × Motion num)
      → Spares m r
      → IsDue m
      → IsDue (kick num dir now r)
  kick-IsDue dir now m (none, n) s h = Spares-IsDue m n (s refl) h
  kick-IsDue dir now m (some o, n) s h = pump-IsDue _

  key_owned-IsDue :
      (s : Option (Scroller num)) (now : num.R) (dir : Direction) (m : Motion num)
      → IsDue m
      → IsDue (key_owned num s now dir m)
  key_owned-IsDue none now dir m h = h
  key_owned-IsDue (some s) now dir m h =
      kick-IsDue dir now m (band_for num s now m) (band_for-Spares s now m) h

  key_push-IsDue :
      (doc : Document num) (path : List Element) (now : num.R) (dir : Option Direction)
      (m : Motion num)
      → IsDue m
      → IsDue (key_push num doc path now dir m)
  key_push-IsDue doc path now none m h = h
  key_push-IsDue doc path now (some dir) m h = key_owned-IsDue (owner num doc dir path) now dir m h

  on_key-IsDue :
      (doc : Document num) (path : List Element) (now : num.R) (modified consumed : Bool)
      (name : String) (m : Motion num)
      → IsDue m
      → IsDue (on_key num doc path now modified consumed name m)
  on_key-IsDue doc path now modified consumed name m h =
      elim (on_key-cases num doc path now modified consumed name m) [
        | inl a ↦ subst IsDue (sym a) h
        | inr a ↦ subst IsDue (sym a) (key_push-IsDue doc path now (key_dir num name) m h)
      ]

  tick-IsDue :
      (now : num.R) (connected : ℕ → Bool) (m : Motion num) → IsDue (tick num now connected m)
  unfolding tick
  tick-IsDue now connected m =
      let after = tick_all num now connected m.bands (record m { raf = false }) in
      ask_frame-IsDue after.bands after refl

  Step-IsDue : {m n : Motion num} → Step num m n → IsDue m → IsDue n
  Step-IsDue {m} (wheel doc e now) h = on_wheel-IsDue doc e now m h
  Step-IsDue {m} (touch_start ts) h = on_touch_start-IsDue ts m h
  Step-IsDue {m} (touch_move doc path now ts) h = on_touch_move-IsDue doc path now ts m h
  Step-IsDue {m} touch_end h = on_touch_end-IsDue m h
  Step-IsDue {m} (key doc path now modified consumed name) h =
      on_key-IsDue doc path now modified consumed name m h
  Step-IsDue {m} (frame now connected asked) h = tick-IsDue now connected m
  Step-IsDue {m} reset h = inl (reset_bands-empty num m)

  -- Along any run of input, frames and resets: while the map has a band, a frame is asked for.
  pub Reach-IsDue : {heap : ℕ → Band num} {m : Motion num} → Reach num (loaded num heap) m → IsDue m
  Reach-IsDue here = inl refl
  Reach-IsDue (next r s) = Step-IsDue s (Reach-IsDue r)
