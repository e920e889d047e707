-- ===== src/RubberBand/Idle.antt =====
-- The gesture of the wheel or of a key in frontend/src/rubberband.ts has no end of its own: a frame
-- ends it, 90 ms after its last input.
use mathlib.Core.Path.{subst}
use proxyforward.Common.{
  ℕ, Bool, true, false, some, List, [], ◌∷◌, ◌≡◌, ◌≢◌, ◌⊎◌, refl, sym, ap, ◌∙◌, inl, inr, arith,
}
use proxyforward.Common.Tests.{◌==◌, Bool-cases}
use proxyforward.Common.Lists.{All-at, IsIn}
use proxyforward.RubberBand.Numbers.{Numbers}
use proxyforward.RubberBand.Bands.{Band, Motion, put, delete, rest, ask_frame}
use proxyforward.RubberBand.Frame.{framed, guarded, advanced, tick_band, tick_all, tick}
use proxyforward.RubberBand.Steps.{Orderly, loaded}
use proxyforward.RubberBand.Springs.{framed-free, framed-Keeps, IsIdle}
use proxyforward.RubberBand.Holds.{IsHeld}
use proxyforward.RubberBand.Rests.{sprung_band, tick_band-cases}
use proxyforward.RubberBand.Release.{Reach-AreHeld}

module _ (num : Numbers) where
  guarded-heap :
      (now : num.R) (b : Band num) (spent : Bool) (m : Motion num)
      → (guarded num now b spent m).heap ≡ m.heap
  guarded-heap now b false m = refl
  guarded-heap now b true m = refl

  rest-heap : (o : ℕ) (m : Motion num) → (rest num o m).heap ≡ m.heap
  unfolding rest delete
  rest-heap o m = refl

  delete-heap : (o : ℕ) (m : Motion num) → (delete num o m).heap ≡ m.heap
  unfolding delete
  delete-heap o m = refl

  sprung_band-heap :
      (now : num.R) (o : ℕ) (m : Motion num)
      → (sprung_band num now o m).heap ≡ put num o (framed num now (m.heap o)) m.heap
  sprung_band-heap now o m =
      guarded-heap now (advanced num now (m.heap o)).0 (advanced num now (m.heap o)).1
        (record m { heap = put num o (framed num now (m.heap o)) m.heap })

  -- A round of the loop leaves the bands, where its own has gone, or springs its own.
  tick_band-heap :
      (now : num.R) (connected : ℕ → Bool) (o : ℕ) (m : Motion num)
      → ((connected (m.heap o).content ≡ false) × ((tick_band num now connected o m).heap ≡ m.heap))
        ⊎ ((tick_band num now connected o m).heap ≡ put num o (framed num now (m.heap o)) m.heap)
  tick_band-heap now connected o m = elim (tick_band-cases num now connected o m) [
    | inl (gone, e) ↦ inl (gone, ap (λ n. n.heap) e ∙ delete-heap o m)
    | inr (inl e) ↦
        inr (ap (λ n. n.heap) e ∙ rest-heap o (sprung_band num now o m) ∙ sprung_band-heap now o m)
    | inr (inr e) ↦ inr (ap (λ n. n.heap) e ∙ sprung_band-heap now o m)
  ]

  ask_frame-heap : (os : List ℕ) (m : Motion num) → (ask_frame num os m).heap ≡ m.heap
  ask_frame-heap [] m = refl
  ask_frame-heap (o ∷ os) m = refl

  put-other :
      (heap : ℕ → Band num) (o j : ℕ) (b : Band num)
      → (j == o) ≡ false
      → put num o b heap j ≡ heap j
  put-other heap o j b e = rw e refl

  put-own : (heap : ℕ → Band num) (o : ℕ) (b : Band num) → put num o b heap o ≡ b
  put-own heap o b = let own : (o == o) ≡ true = ground arith in rw own refl

  tick_band-other :
      (now : num.R) (connected : ℕ → Bool) (o j : ℕ) (m : Motion num)
      → (j == o) ≡ false
      → (tick_band num now connected o m).heap j ≡ m.heap j
  tick_band-other now connected o j m e = elim (tick_band-heap now connected o m) [
    | inl (gone, same) ↦ ap (λ h. h j) same
    | inr put_now ↦ ap (λ h. h j) put_now ∙ put-other m.heap o j (framed num now (m.heap o)) e
  ]

  -- A band that is not held is not taken up by a frame.
  tick_band-free :
      (now : num.R) (connected : ℕ → Bool) (o j : ℕ) (m : Motion num)
      → (m.heap j).held ≡ false
      → ((tick_band num now connected o m).heap j).held ≡ false
  tick_band-free now connected o j m h = elim (Bool-cases (j == o)) [
    | inr other ↦ ap (λ b. b.held) (tick_band-other now connected o j m other) ∙ h
    | inl own ↦ elim (tick_band-heap now connected o m) [
      | inl (gone, same) ↦ ap (λ g. (g j).held) same ∙ h
      | inr put_now ↦
          let at_o : j ≡ o = ground (arith, own) in
          ap (λ g. (g j).held) put_now
          ∙ ap (λ k. (put num o (framed num now (m.heap o)) m.heap k).held) at_o
          ∙ ap (λ b. b.held) (put-own m.heap o (framed num now (m.heap o)))
          ∙ (framed-Keeps num now (m.heap o)).free (ap (λ k. (m.heap k).held) (sym at_o) ∙ h)
    ]
  ]

  tick_all-free :
      (now : num.R) (connected : ℕ → Bool) (os : List ℕ) (j : ℕ) (m : Motion num)
      → (m.heap j).held ≡ false
      → ((tick_all num now connected os m).heap j).held ≡ false
  unfolding tick_all
  tick_all-free now connected [] j m h = h
  tick_all-free now connected (o ∷ os) j m h =
      tick_all-free now connected os j (tick_band num now connected o m)
        (tick_band-free now connected o j m h)

  tick_band-idle :
      (now : num.R) (connected : ℕ → Bool) (o : ℕ) (m : Motion num)
      → IsIdle num now (m.heap o)
      → connected (m.heap o).content ≡ true
      → ((tick_band num now connected o m).heap o).held ≡ false
  tick_band-idle now connected o m h there = elim (tick_band-heap now connected o m) [
    | inl (gone, same) ↦ let clash : true ≡ false = sym there ∙ gone in cc
    | inr put_now ↦
        ap (λ g. (g o).held) put_now
        ∙ ap (λ b. b.held) (put-own m.heap o (framed num now (m.heap o)))
        ∙ framed-free num now (m.heap o) h
  ]

  later : (o : ℕ) (os : List ℕ) (j : ℕ) → (j == o) ≡ false → IsIn j (o ∷ os) → IsIn j os
  later o os j e (inr i) = i
  later o os j e (inl i) = absurd (ground arith)

  tick_all-idle :
      (now : num.R) (connected : ℕ → Bool) (os : List ℕ) (j : ℕ) (m : Motion num)
      → IsIn j os
      → IsIdle num now (m.heap j)
      → connected (m.heap j).content ≡ true
      → ((tick_all num now connected os m).heap j).held ≡ false
  unfolding tick_all
  tick_all-idle now connected [] j m i h there = let clash : true ≡ false = i in cc
  tick_all-idle now connected (o ∷ os) j m i h there = elim (Bool-cases (j == o)) [
    | inl own ↦
        let at_o : j ≡ o = ground (arith, own) in
        tick_all-free now connected os j (tick_band num now connected o m) (
          subst (λ k. ((tick_band num now connected k m).heap j).held ≡ false) at_o
            (tick_band-idle now connected j m h there))
    | inr other ↦
        let same = tick_band-other now connected o j m other in
        tick_all-idle now connected os j (tick_band num now connected o m) (later o os j other i)
          (subst (IsIdle num now) (sym same) h) (ap (λ b. connected b.content) same ∙ there)
  ]

  -- Along any run in which a first finger comes down when none holds a band: a band of the map that
  -- is not under the finger, and whose content is still shown, is not held after a frame that comes
  -- more than 90 ms after its last input.
  pub tick-releases :
      {heap : ℕ → Band num} {m : Motion num} (now : num.R) (connected : ℕ → Bool) (o : ℕ)
      → Orderly num (loaded num heap) m
      → IsIn o m.bands
      → m.touch_band ≢ some o
      → num.lt (num.lit 90 1) (num.sub now (m.heap o).last_input) ≡ true
      → connected (m.heap o).content ≡ true
      → ((tick num now connected m).heap o).held ≡ false
  unfolding tick
  tick-releases {m = m} now connected o r i free idle there =
      let after = tick_all num now connected m.bands (record m { raf = false }) in
      let let_go =
        elim (All-at (IsHeld num m.heap m.touch_band) m.bands o i (Reach-AreHeld num r))
          as (λ x. (m.heap o).auto_release ≡ true) [
            | inl auto ↦ auto
            | inr touched ↦ absurd (free touched)
          ] in
      ap (λ g. (g o).held) (ask_frame-heap after.bands after)
      ∙ tick_all-idle now connected m.bands o (record m { raf = false }) i (let_go, idle) there
