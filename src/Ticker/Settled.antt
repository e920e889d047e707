-- ===== src/Ticker/Settled.antt =====
-- Whether a ticker (frontend/src/components/NumberTicker.tsx) comes to show its value.
use proxyforward.Common.{
  ℕ, ◌+◌, ◌-◌, ◌≤◌, ◌≡◌, refl, sym, ◌∙◌, ◌↔◌, Bool, true, false, Option, none, some, arith,
}
use proxyforward.Common.Tests.{leb, if◌then◌else◌, by_test}
use proxyforward.Ticker.{Ticker, mount, begin, render, step, frame}

module _ (V : Type 0) (same : V → V → Bool) (same_iff : (a b : V) → (same a b ≡ true) ↔ (a ≡ b))
    (eased : V → V → ℕ → V) (duration : ℕ) (reduced : Bool) where
  -- A new value comes when nothing runs; frames come at any time.
  pub data Step (s : Ticker V same eased duration reduced)
      : Ticker V same eased duration reduced → Type 0 where
    renders :
        (now : ℕ) (v : V) → s.run ≡ none → Step s (render V same eased duration reduced now v s)
    frames : (now : ℕ) → Step s (frame V same eased duration reduced now s)

  pub data Reach (v : V) : Ticker V same eased duration reduced → Type 0 where
    here : Reach v (mount V same eased duration reduced v)
    next : {s t : Ticker V same eased duration reduced} → Reach v s → Step s t → Reach v t

  -- A ticker at rest shows its value, and starts from it.
  pub record IsSettled (s : Ticker V same eased duration reduced) : Type 0 where
    pub shows : s.run ≡ none → s.display ≡ s.value
    pub starts : s.run ≡ none → s.from ≡ s.value

  render-IsSettled :
      (now : ℕ) (v : V) (s : Ticker V same eased duration reduced)
      → s.run ≡ none
      → IsSettled s
      → IsSettled (render V same eased duration reduced now v s)
  unfolding render
  render-IsSettled now v s r h =
      by_test IsSettled (same s.value v) s (begin V same eased duration reduced now v s) (λ e. h)
        (λ new.
          by_test IsSettled reduced (record s { value = v; display = v; from = v; run = none })
            (if same s.from v
              then record s { value = v; run = none }
              else record s { value = v; run = some now })
            (λ e. record { shows = λ q. refl; starts = λ q. refl })
            (λ e.
              by_test IsSettled (same s.from v) (record s { value = v; run = none })
                (record s { value = v; run = some now })
                (λ f.
                  let back : s.value ≡ v = sym (h.starts r) ∙ (same_iff s.from v).0 f in
                  let clash : true ≡ false = sym ((same_iff s.value v).1 back) ∙ new in
                  record { shows = λ q. cc; starts = λ q. cc })
                (λ f. record {
                  shows = λ q. let clash : some now ≡ none = q in cc;
                  starts = λ q. let clash : some now ≡ none = q in cc;
                })))

  step-IsSettled :
      (now : ℕ) (o : Option ℕ) (s : Ticker V same eased duration reduced)
      → s.run ≡ o
      → IsSettled s
      → IsSettled (step V same eased duration reduced now o s)
  step-IsSettled now none s e h = h
  step-IsSettled now (some start) s e h =
      by_test IsSettled (leb duration (now - start))
        (record s { display = s.value; from = s.value; run = none })
        (record s { display = eased s.from s.value (now - start) })
        (λ q. record { shows = λ r. refl; starts = λ r. refl })
        (λ q. record {
          shows = λ r. let clash : some start ≡ none = sym e ∙ r in cc;
          starts = λ r. let clash : some start ≡ none = sym e ∙ r in cc;
        })

  Step-IsSettled :
      {s t : Ticker V same eased duration reduced} → Step s t → IsSettled s → IsSettled t
  unfolding frame
  Step-IsSettled {s = s} (renders now v e) h = render-IsSettled now v s e h
  Step-IsSettled {s = s} (frames now) h = step-IsSettled now s.run s refl h

  -- Along any run in which new values come only at rest, with frames at any time: a ticker at rest
  -- shows its value, and will start from it.
  pub Reach-IsSettled : {v : V} {s : Ticker V same eased duration reduced} → Reach v s → IsSettled s
  unfolding mount
  Reach-IsSettled here = record { shows = λ r. refl; starts = λ r. refl }
  Reach-IsSettled (next r st) = Step-IsSettled st (Reach-IsSettled r)

  -- A frame that comes `duration` or more after the start ends the animation at the value.
  pub frame-shows :
      (s : Ticker V same eased duration reduced) (start now : ℕ)
      → s.run ≡ some start
      → duration + start ≤ now
      → ((frame V same eased duration reduced now s).run ≡ none)
        × ((frame V same eased duration reduced now s).display ≡ s.value)
  unfolding frame
  frame-shows s start now e h =
      let over : leb duration (now - start) ≡ true = ground arith in simp (e, over) (refl, refl)

  -- Without reduced motion: a value that comes during an animation and is the one that this started
  -- from, other than its goal, stops it for good, and no frame changes what was shown then.
  pub render-stuck :
      (s : Ticker V same eased duration reduced) (now later : ℕ)
      → reduced ≡ false
      → same s.value s.from ≡ false
      → ((render V same eased duration reduced now s.from s).value ≡ s.from)
        × ((render V same eased duration reduced now s.from s).display ≡ s.display)
        × (frame V same eased duration reduced later
              (render V same eased duration reduced now s.from s)
            ≡ render V same eased duration reduced now s.from s)
  unfolding render frame
  render-stuck s now later e f =
      let equal : same s.from s.from ≡ true = (same_iff s.from s.from).1 refl in
      simp (f, e, equal) (refl, refl, refl)
