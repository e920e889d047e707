-- ===== src/RubberBand/Holds.antt =====
-- Who holds a band of frontend/src/rubberband.ts: what the operations on bands keep of it.
use mathlib.Core.Path.{subst}
use proxyforward.Common.{
  ℕ, true, false, Option, none, some, List, [], ◌∷◌, ◌≡◌, ◌⊎◌, refl, sym, ap, ◌∙◌, inl, inr, arith,
}
use proxyforward.Common.Tests.{◌==◌, Bool-cases}
use proxyforward.Common.Lists.{All, All-map, All-snoc}
use proxyforward.RubberBand.Numbers.{Numbers}
use proxyforward.RubberBand.Bands.{
  Band, Motion, Scroller, put, modify, get_band, new_band, make_band, or_make, band_for, handed,
  pushed, pump, pull, ask_frame,
}
use proxyforward.RubberBand.Cases.{pump-cases, pull-cases}

module _ (num : Numbers) where
  -- A band lets go by itself, or it is the one under the finger.
  abbrev pub IsHeld : (ℕ → Band num) → Option ℕ → ℕ → Type 0
  IsHeld heap touch i = ((heap i).auto_release ≡ true) ⊎ (touch ≡ some i)

  abbrev pub AreHeld : Motion num → Type 0
  AreHeld m = All (IsHeld m.heap m.touch_band) m.bands

  -- What a band that is put in the place of another may be.
  abbrev pub MayPut : (ℕ → Band num) → Option ℕ → ℕ → Band num → Type 0
  MayPut heap touch o b =
      (b.auto_release ≡ true) ⊎ (b.auto_release ≡ (heap o).auto_release) ⊎ (touch ≡ some o)

  put_here :
      (heap : ℕ → Band num) (touch : Option ℕ) (o : ℕ) (b : Band num)
      → MayPut heap touch o b
      → IsHeld heap touch o
      → (b.auto_release ≡ true) ⊎ (touch ≡ some o)
  put_here heap touch o b (inl auto) h = inl auto
  put_here heap touch o b (inr (inr touched)) h = inr touched
  put_here heap touch o b (inr (inl same)) (inl auto) = inl (same ∙ auto)
  put_here heap touch o b (inr (inl same)) (inr touched) = inr touched

  pub put-IsHeld :
      (heap : ℕ → Band num) (touch : Option ℕ) (o : ℕ) (b : Band num)
      → MayPut heap touch o b
      → (i : ℕ) → IsHeld heap touch i
      → IsHeld (put num o b heap) touch i
  put-IsHeld heap touch o b h i g = elim (Bool-cases (i == o)) [
    | inr e ↦ rw e g
    | inl e ↦
        let same : i ≡ o = ground (arith, e) in
        rw (e, same) (put_here heap touch o b h (subst (IsHeld heap touch) same g))
  ]

  pub modify-AreHeld :
      (o : ℕ) (f : Band num → Band num) (m : Motion num)
      → MayPut m.heap m.touch_band o (f (m.heap o))
      → AreHeld m
      → AreHeld (modify num o f m)
  unfolding modify
  modify-AreHeld o f m may h =
      All-map (put-IsHeld m.heap m.touch_band o (f (m.heap o)) may) m.bands h

  ask_frame-Same :
      (os : List ℕ) (m : Motion num)
      → ((ask_frame num os m).heap ≡ m.heap)
        × ((ask_frame num os m).touch_band ≡ m.touch_band)
        × ((ask_frame num os m).bands ≡ m.bands)
  ask_frame-Same [] m = (refl, refl, refl)
  ask_frame-Same (o ∷ os) m = (refl, refl, refl)

  pub ask_frame-AreHeld : (os : List ℕ) (m : Motion num) → AreHeld m → AreHeld (ask_frame num os m)
  ask_frame-AreHeld [] m h = h
  ask_frame-AreHeld (o ∷ os) m h = h

  pub pump-Same :
      (m : Motion num)
      → ((pump num m).heap ≡ m.heap)
        × ((pump num m).touch_band ≡ m.touch_band)
        × ((pump num m).bands ≡ m.bands)
  pump-Same m = elim (pump-cases num m) [
    | inl (asked, e) ↦ (ap (λ n. n.heap) e, ap (λ n. n.touch_band) e, ap (λ n. n.bands) e)
    | inr e ↦
        let (heap, touch, bands) = ask_frame-Same m.bands m in
        (ap (λ n. n.heap) e ∙ heap, ap (λ n. n.touch_band) e ∙ touch, ap (λ n. n.bands) e ∙ bands)
  ]

  pub pump-AreHeld : (m : Motion num) → AreHeld m → AreHeld (pump num m)
  pump-AreHeld m h = elim (pump-cases num m) [
    | inl (asked, e) ↦ subst AreHeld (sym e) h
    | inr e ↦ subst AreHeld (sym e) (ask_frame-AreHeld m.bands m h)
  ]

  make_band-AreHeld :
      (s : Scroller num) (c : Option ℕ) (now : num.R) (m : Motion num)
      → AreHeld m
      → AreHeld (make_band num s c now m).1
  unfolding make_band new_band
  make_band-AreHeld s none now m h = h
  make_band-AreHeld s (some c) now m h =
      let b = new_band num s.id c s.height now in
      All-snoc (IsHeld (put num m.made b m.heap) m.touch_band) m.bands m.made
        (All-map (put-IsHeld m.heap m.touch_band m.made b (inl refl)) m.bands h)
        (let here : (m.made == m.made) ≡ true = ground arith in rw here (inl refl))

  or_make-AreHeld :
      (f : Option ℕ) (s : Scroller num) (now : num.R) (m : Motion num)
      → AreHeld m
      → AreHeld (or_make num f s now m).1
  or_make-AreHeld none s now m h = make_band-AreHeld s s.content now m h
  or_make-AreHeld (some o) s now m h = h

  pub band_for-AreHeld :
      (s : Scroller num) (now : num.R) (m : Motion num)
      → AreHeld m
      → AreHeld (band_for num s now m).1
  unfolding band_for
  band_for-AreHeld s now m h = or_make-AreHeld (get_band num s.id m) s now m h

  make_band-touch :
      (s : Scroller num) (c : Option ℕ) (now : num.R) (m : Motion num)
      → (make_band num s c now m).1.touch_band ≡ m.touch_band
  unfolding make_band
  make_band-touch s none now m = refl
  make_band-touch s (some c) now m = refl

  or_make-touch :
      (f : Option ℕ) (s : Scroller num) (now : num.R) (m : Motion num)
      → (or_make num f s now m).1.touch_band ≡ m.touch_band
  or_make-touch none s now m = make_band-touch s s.content now m
  or_make-touch (some o) s now m = refl

  pub band_for-touch :
      (s : Scroller num) (now : num.R) (m : Motion num)
      → (band_for num s now m).1.touch_band ≡ m.touch_band
  unfolding band_for
  band_for-touch s now m = or_make-touch (get_band num s.id m) s now m

  -- What `pull` leaves: it hands over only a band that lets go by itself.
  pub pull-AreHeld :
      (now : num.R) (o : ℕ) (dy : num.R) (m : Motion num)
      → AreHeld m
      → AreHeld (pull num now o dy m).1
  unfolding handed pushed
  pull-AreHeld now o dy m h = elim (pull-cases num now o dy m) [
    | inl e ↦
        subst (λ r. AreHeld r.1) (sym e)
          (pump-AreHeld _ (modify-AreHeld o (handed num) m (inl refl) h))
    | inr e ↦
        let f = pushed num now (num.add (m.heap o).raw dy) dy in
        subst (λ r. AreHeld r.1) (sym e) (pump-AreHeld _ (modify-AreHeld o f m (inr (inl refl)) h))
  ]

  pub pull-touch :
      (now : num.R) (o : ℕ) (dy : num.R) (m : Motion num)
      → (pull num now o dy m).1.touch_band ≡ m.touch_band
  unfolding modify
  pull-touch now o dy m = elim (pull-cases num now o dy m) [
    | inl e ↦ ap (λ r. r.1.touch_band) e ∙ (pump-Same _).1
    | inr e ↦ ap (λ r. r.1.touch_band) e ∙ (pump-Same _).1
  ]

  pub pull-handed :
      (now : num.R) (o : ℕ) (dy : num.R) (m : Motion num)
      → (pull num now o dy m).0 ≡ false
      → ((pull num now o dy m).1.heap o).auto_release ≡ true
  unfolding modify handed
  pull-handed now o dy m over = elim (pull-cases num now o dy m) [
    | inr e ↦ let clash : true ≡ false = sym (ap (λ r. r.0) e) ∙ over in cc
    | inl e ↦
        let here : (o == o) ≡ true = ground arith in
        ap (λ r. (r.1.heap o).auto_release) e
        ∙ ap (λ g. (g o).auto_release) (pump-Same (modify num o (handed num) m)).0
        ∙ rw here refl
  ]

  untouched :
      (heap : ℕ → Band num) (touch : Option ℕ) (o i : ℕ)
      → (heap o).auto_release ≡ true
      → touch ≡ some o
      → IsHeld heap touch i
      → IsHeld heap none i
  untouched heap touch o i auto touched (inl a) = inl a
  untouched heap touch o i auto touched (inr t) =
      let o-i : o ≡ i = cc in inl (subst (λ k. (heap k).auto_release ≡ true) o-i auto)

  -- The finger leaves a band that lets go by itself.
  pub let_touch-AreHeld :
      (o : ℕ) (m : Motion num)
      → (m.heap o).auto_release ≡ true
      → m.touch_band ≡ some o
      → AreHeld m
      → AreHeld (record m { touch_band = none })
  let_touch-AreHeld o m auto touched h =
      All-map (λ i. untouched m.heap m.touch_band o i auto touched) m.bands h
