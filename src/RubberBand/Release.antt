-- ===== src/RubberBand/Release.antt =====
-- Every band of frontend/src/rubberband.ts is let go: by the finger that holds it, or by itself once
-- its input has stopped.
use mathlib.Core.Path.{subst}
use proxyforward.Common.{
  ℕ, Bool, true, false, Option, none, some, List, [], ◌∷◌, ◌≡◌, ◌⊎◌, refl, sym, ap, ◌∙◌, inl, inr,
  arith,
}
use proxyforward.Common.Tests.{◌==◌}
use proxyforward.Common.Lists.{All, All-map}
use proxyforward.RubberBand.{Element, Direction}
use proxyforward.RubberBand.Numbers.{Numbers}
use proxyforward.RubberBand.Bands.{
  Band, Motion, Scroller, modify, band_for, claimed, claim, pump, pull, reset_bands,
}
use proxyforward.RubberBand.Frame.{let_go, tick_all, tick}
use proxyforward.RubberBand.Input.{
  Document, owner, direction, release, on_touch_end, on_touch_start, touch_claim, touch_owned,
  touch_latch, touch_keep, touch_pull, touch_push, on_touch_move, kicked, kick, key_owned, key_push,
  key_dir,
}
use proxyforward.RubberBand.Steps.{
  Step, wheel, touch_start, touch_move, touch_end, key, frame, reset, IsFirst, IsLifted, Orderly,
  start, then, loaded,
}
use proxyforward.RubberBand.Cases.{on_touch_move-cases, on_key-cases}
use proxyforward.RubberBand.Reset.{reset_bands-empty}
use proxyforward.RubberBand.Bursts.{AreHeldIn, on_wheel-AreHeld}
use proxyforward.RubberBand.Rests.{tick_all-AreHeld}
use proxyforward.RubberBand.Holds.{
  IsHeld, AreHeld, modify-AreHeld, put-IsHeld, ask_frame-AreHeld, pump-Same, pump-AreHeld,
  band_for-touch, band_for-AreHeld, pull-AreHeld, pull-touch, pull-handed, let_touch-AreHeld,
}

module _ (num : Numbers) where
  -- The finger lets go: every band that is left lets go by itself.
  release-AreHeld :
      (b : Option ℕ) (m : Motion num)
      → m.touch_band ≡ b
      → AreHeld num m
      → AreHeld num (record (release num b m) { touch_band = none; touch_id = none })
  unfolding modify
  release-AreHeld none m e h = subst (λ t. All (IsHeld num m.heap t) m.bands) e h
  release-AreHeld (some o) m e h =
      let f : Band num → Band num = λ b. record (let_go num b) { auto_release = true } in
      let let_go_now = modify num o f m in
      let (heap, touch, bands) = pump-Same num let_go_now in
      let own : (o == o) ≡ true = ground arith in
      let_touch-AreHeld num o (pump num let_go_now)
        (ap (λ g. (g o).auto_release) heap ∙ rw own refl) (touch ∙ e)
        (pump-AreHeld num let_go_now (modify-AreHeld num o f m (inl refl) h))

  on_touch_end-AreHeld : (m : Motion num) → AreHeld num m → AreHeld num (on_touch_end num m)
  unfolding on_touch_end
  on_touch_end-AreHeld m h = release-AreHeld m.touch_band m refl h

  on_touch_start-AreHeld :
      (ts : List (ℕ × num.R)) (m : Motion num)
      → IsFirst num ts m
      → AreHeld num m
      → AreHeld num (on_touch_start num ts m)
  unfolding on_touch_start
  on_touch_start-AreHeld [] m e h = on_touch_end-AreHeld m h
  on_touch_start-AreHeld ((i, y) ∷ []) m e h = subst (λ t. All (IsHeld num m.heap t) m.bands) e h
  on_touch_start-AreHeld (t ∷ u ∷ ts) m e h = on_touch_end-AreHeld m h

  -- The finger's band, and that it is the one that is latched
  abbrev Touches : Option ℕ × Motion num → Type 0
  Touches r = AreHeld num r.1 × ((r.0 ≡ none) ⊎ (r.1.touch_band ≡ r.0))

  retouched :
      (heap : ℕ → Band num) (touch : Option ℕ) (o i : ℕ)
      → touch ≡ none
      → IsHeld num heap touch i
      → IsHeld num heap (some o) i
  retouched heap touch o i e (inl auto) = inl auto
  retouched heap touch o i e (inr t) = cc

  touch_claim-Touches :
      (dir : Direction) (r : Option ℕ × Motion num)
      → r.1.touch_band ≡ none
      → AreHeldIn num r
      → Touches (touch_claim num dir r)
  unfolding claim modify
  touch_claim-Touches dir (none, m) e h = (h, inl refl)
  touch_claim-Touches dir (some o, m) e h =
      let b = claimed num dir false (m.heap o) in
      (
        All-map
            (λ i g.
              put-IsHeld num m.heap (some o) o b (inr (inr refl)) i
                (retouched m.heap m.touch_band o i e g))
            m.bands h,
        inr refl,
      )

  touch_owned-Touches :
      (s : Option (Scroller num)) (now : num.R) (dir : Direction) (m : Motion num)
      → m.touch_band ≡ none
      → AreHeld num m
      → Touches (touch_owned num s now dir m)
  touch_owned-Touches none now dir m e h = (h, inl refl)
  touch_owned-Touches (some s) now dir m e h =
      touch_claim-Touches dir (band_for num s now m) (band_for-touch num s now m ∙ e)
        (band_for-AreHeld num s now m h)

  touch_latch-Touches :
      (doc : Document num) (path : List Element) (now dy : num.R) (b : Option ℕ) (m : Motion num)
      → m.touch_band ≡ b
      → AreHeld num m
      → Touches (touch_latch num doc path now dy b m)
  touch_latch-Touches doc path now dy none m e h =
      touch_owned-Touches (owner num doc (direction num dy) path) now (direction num dy) m e h
  touch_latch-Touches doc path now dy (some o) m e h = (h, inr e)

  touch_keep-AreHeld :
      (o : ℕ) (r : Bool × Motion num)
      → r.1.touch_band ≡ some o
      → (r.0 ≡ false → (r.1.heap o).auto_release ≡ true)
      → AreHeld num r.1
      → AreHeld num (touch_keep num r).1
  touch_keep-AreHeld o (true, m) e over h = h
  touch_keep-AreHeld o (false, m) e over h = let_touch-AreHeld num o m (over refl) e h

  touch_pull-AreHeld :
      (now dy : num.R) (r : Option ℕ × Motion num)
      → Touches r
      → AreHeld num (touch_pull num now dy r).1
  unfolding modify
  touch_pull-AreHeld now dy (none, m) (h, t) = h
  touch_pull-AreHeld now dy (some o, m) (h, inl t) = cc
  touch_pull-AreHeld now dy (some o, m) (h, inr t) =
      let f : Band num → Band num = λ b. record b { omega = num.lit 120 1 } in
      let n = modify num o f m in
      touch_keep-AreHeld o (pull num now o dy n) (pull-touch num now o dy n ∙ t)
        (pull-handed num now o dy n)
        (pull-AreHeld num now o dy n (modify-AreHeld num o f m (inr (inl refl)) h))

  on_touch_move-AreHeld :
      (doc : Document num) (path : List Element) (now : num.R) (ts : List (ℕ × num.R))
      (m : Motion num)
      → AreHeld num m
      → AreHeld num (on_touch_move num doc path now ts m).1
  unfolding on_touch_move touch_push
  on_touch_move-AreHeld doc path now [] m h = h
  on_touch_move-AreHeld doc path now (t ∷ u ∷ ts) m h = h
  on_touch_move-AreHeld doc path now ((i, y) ∷ []) m h =
      elim (on_touch_move-cases num doc path now i y m) [
        | inl a ↦ subst (λ r. AreHeld num r.1) (sym a) h
        | inr (inl a) ↦ subst (λ r. AreHeld num r.1) (sym a) h
        | inr (inr a) ↦
            let moved : Motion num = record m { touch_y = y } in
            let dy = num.sub m.touch_y y in
            subst (λ r. AreHeld num r.1) (sym a)
              (touch_pull-AreHeld now dy (touch_latch num doc path now dy m.touch_band moved)
                (touch_latch-Touches doc path now dy m.touch_band moved refl h))
      ]

  kick-AreHeld :
      (dir : Direction) (now : num.R) (r : Option ℕ × Motion num)
      → AreHeldIn num r
      → AreHeld num (kick num dir now r)
  unfolding kicked
  kick-AreHeld dir now (none, m) h = h
  kick-AreHeld dir now (some o, m) h =
      pump-AreHeld num (modify num o (kicked num dir now) m)
        (modify-AreHeld num o (kicked num dir now) m (inl refl) h)

  key_owned-AreHeld :
      (s : Option (Scroller num)) (now : num.R) (dir : Direction) (m : Motion num)
      → AreHeld num m
      → AreHeld num (key_owned num s now dir m)
  key_owned-AreHeld none now dir m h = h
  key_owned-AreHeld (some s) now dir m h =
      kick-AreHeld dir now (band_for num s now m) (band_for-AreHeld num s now m h)

  key_push-AreHeld :
      (doc : Document num) (path : List Element) (now : num.R) (dir : Option Direction)
      (m : Motion num)
      → AreHeld num m
      → AreHeld num (key_push num doc path now dir m)
  key_push-AreHeld doc path now none m h = h
  key_push-AreHeld doc path now (some dir) m h =
      key_owned-AreHeld (owner num doc dir path) now dir m h

  tick-AreHeld :
      (now : num.R) (connected : ℕ → Bool) (m : Motion num)
      → AreHeld num m
      → AreHeld num (tick num now connected m)
  unfolding tick
  tick-AreHeld now connected m h =
      let after = tick_all num now connected m.bands (record m { raf = false }) in
      ask_frame-AreHeld num after.bands after
        (tick_all-AreHeld num now connected m.bands (record m { raf = false }) h)

  Step-AreHeld :
      {m n : Motion num} → (s : Step num m n) → IsLifted num s → AreHeld num m → AreHeld num n
  Step-AreHeld {m} (wheel doc e now) l h = on_wheel-AreHeld num doc e now m h
  Step-AreHeld {m} (touch_start ts) first h = on_touch_start-AreHeld ts m first h
  Step-AreHeld {m} (touch_move doc path now ts) l h = on_touch_move-AreHeld doc path now ts m h
  Step-AreHeld {m} touch_end l h = on_touch_end-AreHeld m h
  Step-AreHeld {m} (key doc path now modified consumed name) l h =
      elim (on_key-cases num doc path now modified consumed name m) [
        | inl a ↦ subst (AreHeld num) (sym a) h
        | inr a ↦ subst (AreHeld num) (sym a) (key_push-AreHeld doc path now (key_dir num name) m h)
      ]
  Step-AreHeld {m} (frame now connected asked) l h = tick-AreHeld now connected m h
  Step-AreHeld {m} reset l h =
      subst (All (IsHeld num (reset_bands num m).heap (reset_bands num m).touch_band))
        (sym (reset_bands-empty num m)) tt

  -- Along any run in which a first finger comes down when none holds a band: every band of the map
  -- lets go by itself, or is the one under the finger, whose end lets it go.
  pub Reach-AreHeld :
      {heap : ℕ → Band num} {m : Motion num} → Orderly num (loaded num heap) m → AreHeld num m
  Reach-AreHeld start = tt
  Reach-AreHeld (then r s l) = Step-AreHeld s l (Reach-AreHeld r)
