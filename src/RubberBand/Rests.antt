-- ===== src/RubberBand/Rests.antt =====
-- Who holds a band of frontend/src/rubberband.ts: what the frames and the rests keep of it.
use mathlib.Core.Path.{subst}
use proxyforward.Common.{
  ℕ, Bool, true, false, not, Option, none, some, List, [], ◌∷◌, ◌≡◌, ◌⊎◌, refl, sym, ap, ◌∙◌, inl,
  inr, arith,
}
use proxyforward.Common.Tests.{◌==◌, Bool-cases}
use proxyforward.Common.Lists.{All-map, All-filter}
use proxyforward.RubberBand.Numbers.{Numbers}
use proxyforward.RubberBand.Bands.{Band, Motion, put, unlatch, delete, rest}
use proxyforward.RubberBand.Frame.{framed, advanced, is_settled, guarded, tick_band, tick_all}
use proxyforward.RubberBand.Springs.{framed-Keeps}
use proxyforward.RubberBand.Holds.{IsHeld, AreHeld, put-IsHeld}

module _ (num : Numbers) where
  -- A band leaves the map.
  pub delete-AreHeld : (o : ℕ) (m : Motion num) → AreHeld num m → AreHeld num (delete num o m)
  unfolding delete
  delete-AreHeld o m h =
      All-filter (λ i. not ((m.heap i).scroller == (m.heap o).scroller)) (λ i g kept. g) m.bands h

  unlatch-IsHeld :
      (heap : ℕ → Band num) (touch : Option ℕ) (o i : ℕ)
      → IsHeld num heap touch i
      → not ((heap i).scroller == (heap o).scroller) ≡ true
      → IsHeld num heap (unlatch num o touch) i
  unlatch-IsHeld heap none o i g kept = g
  unlatch-IsHeld heap (some t) o i (inl auto) kept = inl auto
  unlatch-IsHeld heap (some t) o i (inr touched) kept = elim (Bool-cases (t == o)) [
    | inr e ↦ inr (rw e touched)
    | inl e ↦
        let t-i : t ≡ i = cc in
        let scrollers : (heap i).scroller ≡ (heap o).scroller =
          ap (λ k. (heap k).scroller) (sym t-i ∙ ground (arith, e)) in
        let same : ((heap i).scroller == (heap o).scroller) ≡ true = ground arith in
        let clash : true ≡ false = sym kept ∙ ap not same in cc
  ]

  pub rest-AreHeld : (o : ℕ) (m : Motion num) → AreHeld num m → AreHeld num (rest num o m)
  unfolding rest delete
  rest-AreHeld o m h =
      All-filter (λ i. not ((m.heap i).scroller == (m.heap o).scroller))
        (unlatch-IsHeld m.heap m.touch_band o) m.bands h

  guarded-AreHeld :
      (now : num.R) (b : Band num) (spent : Bool) (m : Motion num)
      → AreHeld num m
      → AreHeld num (guarded num now b spent m)
  guarded-AreHeld now b false m h = h
  guarded-AreHeld now b true m h = h

  -- A body of the loop of `tick` drops the band, or springs it, and may then put it to rest.
  abbrev pub sprung_band : num.R → ℕ → Motion num → Motion num
  sprung_band now o m =
      let b = m.heap o in
      guarded num now (advanced num now b).0 (advanced num now b).1
        (record m { heap = put num o (framed num now b) m.heap })

  pub tick_band-cases :
      (now : num.R) (connected : ℕ → Bool) (o : ℕ) (m : Motion num)
      → ((connected (m.heap o).content ≡ false)
          × (tick_band num now connected o m ≡ delete num o m))
        ⊎ (tick_band num now connected o m ≡ rest num o (sprung_band now o m))
        ⊎ (tick_band num now connected o m ≡ sprung_band now o m)
  unfolding tick_band
  tick_band-cases now connected o m = elim (Bool-cases (connected (m.heap o).content)) [
    | inr a ↦ inl (a, rw a refl)
    | inl a ↦ elim (Bool-cases (is_settled num (framed num now (m.heap o)))) [
      | inl b ↦ inr (inl (rw (a, b) refl))
      | inr b ↦ inr (inr (rw (a, b) refl))
    ]
  ]

  sprung_band-AreHeld :
      (now : num.R) (o : ℕ) (m : Motion num) → AreHeld num m → AreHeld num (sprung_band now o m)
  sprung_band-AreHeld now o m h =
      let b = m.heap o in
      guarded-AreHeld now (advanced num now b).0 (advanced num now b).1
        (record m { heap = put num o (framed num now b) m.heap })
        (All-map
          (put-IsHeld num m.heap m.touch_band o (framed num now b)
            (inr (inl (framed-Keeps num now b).auto_release)))
          m.bands h)

  tick_band-AreHeld :
      (now : num.R) (connected : ℕ → Bool) (o : ℕ) (m : Motion num)
      → AreHeld num m
      → AreHeld num (tick_band num now connected o m)
  tick_band-AreHeld now connected o m h = elim (tick_band-cases now connected o m) [
    | inl (a, e) ↦ subst (AreHeld num) (sym e) (delete-AreHeld o m h)
    | inr (inl e) ↦
        subst (AreHeld num) (sym e)
          (rest-AreHeld o (sprung_band now o m) (sprung_band-AreHeld now o m h))
    | inr (inr e) ↦ subst (AreHeld num) (sym e) (sprung_band-AreHeld now o m h)
  ]

  pub tick_all-AreHeld :
      (now : num.R) (connected : ℕ → Bool) (os : List ℕ) (m : Motion num)
      → AreHeld num m
      → AreHeld num (tick_all num now connected os m)
  unfolding tick_all
  tick_all-AreHeld now connected [] m h = h
  tick_all-AreHeld now connected (o ∷ os) m h =
      tick_all-AreHeld now connected os (tick_band num now connected o m)
        (tick_band-AreHeld now connected o m h)
