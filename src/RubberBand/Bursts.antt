-- ===== src/RubberBand/Bursts.antt =====
-- Who holds a band of frontend/src/rubberband.ts: what the wheel keeps of it.
use mathlib.Core.Path.{subst}
use proxyforward.Common.{ℕ, Bool, true, false, Option, none, some, refl, sym, inl, inr}
use proxyforward.RubberBand.{Direction}
use proxyforward.RubberBand.Numbers.{Numbers}
use proxyforward.RubberBand.Bands.{Motion, Scroller, band_for, claimed, claim, pull}
use proxyforward.RubberBand.Input.{
  Document, WheelEvent, owner, delta_of, direction, is_dense, latched, tuned, wheel_claim,
  wheel_start, wheel_latch, wheel_keep, wheel_pull, wheel_push, on_wheel,
}
use proxyforward.RubberBand.Cases.{on_wheel-cases}
use proxyforward.RubberBand.Holds.{AreHeld, modify-AreHeld, band_for-AreHeld, pull-AreHeld}

module _ (num : Numbers) where
  abbrev pub AreHeldIn : Option ℕ × Motion num → Type 0
  AreHeldIn r = AreHeld num r.1

  wheel_claim-AreHeld :
      (dir : Direction) (r : Option ℕ × Motion num)
      → AreHeldIn r
      → AreHeldIn (wheel_claim num dir r)
  unfolding claim claimed
  wheel_claim-AreHeld dir (none, m) h = h
  wheel_claim-AreHeld dir (some o, m) h =
      modify-AreHeld num o (tuned num m.dense_src) (claim num o dir true m) (inr (inl refl))
        (modify-AreHeld num o (claimed num dir true) m (inl refl) h)

  wheel_start-AreHeld :
      (s : Option (Scroller num)) (now : num.R) (dir : Direction) (m : Motion num)
      → AreHeld num m
      → AreHeldIn (wheel_start num s now dir m)
  wheel_start-AreHeld none now dir m h = h
  wheel_start-AreHeld (some s) now dir m h =
      wheel_claim-AreHeld dir (band_for num s now m) (band_for-AreHeld num s now m h)

  wheel_latch-AreHeld :
      (doc : Document num) (e : WheelEvent num) (now dy : num.R) (b : Option ℕ) (m : Motion num)
      → AreHeld num m
      → AreHeldIn (wheel_latch num doc e now dy b m)
  wheel_latch-AreHeld doc e now dy none m h =
      wheel_start-AreHeld (owner num doc (direction num dy) e.path) now (direction num dy)
        (record m { wheel_band = none }) h
  wheel_latch-AreHeld doc e now dy (some o) m h = h

  wheel_keep-AreHeld : (r : Bool × Motion num) → AreHeld num r.1 → AreHeld num (wheel_keep num r).1
  wheel_keep-AreHeld (true, m) h = h
  wheel_keep-AreHeld (false, m) h = h

  wheel_pull-AreHeld :
      (now dy : num.R) (r : Option ℕ × Motion num)
      → AreHeldIn r
      → AreHeld num (wheel_pull num now dy r).1
  wheel_pull-AreHeld now dy (none, m) h = h
  wheel_pull-AreHeld now dy (some o, m) h =
      wheel_keep-AreHeld (pull num now o dy m) (pull-AreHeld num now o dy m h)

  pub on_wheel-AreHeld :
      (doc : Document num) (e : WheelEvent num) (now : num.R) (m : Motion num)
      → AreHeld num m
      → AreHeld num (on_wheel num doc e now m).1
  unfolding wheel_push
  on_wheel-AreHeld doc e now m h = elim (on_wheel-cases num doc e now m) [
    | inl a ↦ subst (λ r. AreHeld num r.1) (sym a) h
    | inr (inl a) ↦ subst (λ r. AreHeld num r.1) (sym a) h
    | inr (inr a) ↦
        let dy = delta_of num doc.page_height e.mode e.delta_y in
        let heard : Motion num = record m {
          wheel_at = now;
          dense_src = is_dense num dy (num.sub now m.wheel_at);
        } in
        let b = latched num now m.wheel_band heard in
        subst (λ r. AreHeld num r.1) (sym a)
          (wheel_pull-AreHeld now dy (wheel_latch num doc e now dy b heard)
            (wheel_latch-AreHeld doc e now dy b heard h))
  ]
