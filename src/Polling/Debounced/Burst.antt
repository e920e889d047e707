-- ===== src/Polling/Debounced/Burst.antt =====
-- A burst of values through `useDebounced` (frontend/src/hooks.ts), as they are typed into a search.
use proxyforward.Common.{
  ℕ, ◌+◌, ◌<◌, ◌≡◌, refl, ap, ◌∙◌, Bool, true, false, some, List, [], ◌∷◌, arith,
}
use proxyforward.Common.Tests.{leb}
use proxyforward.Polling.Debounced.{Debounced, render, fire}

module _ (V : Type 0) (same : V → V → Bool) (ms : ℕ) where
  -- A value, and the time since the one before
  pub record Typed : Type 0 where
    pub gap : ℕ
    pub value : V

  -- At each of them the timers that are due have fired.
  abbrev pub burst : ℕ → List Typed → Debounced V same ms → Debounced V same ms
  burst now [] s = s
  burst now (k ∷ ks) s =
      burst (now + k.gap) ks
        (render V same ms (now + k.gap) k.value (fire V same ms (now + k.gap) s))

  abbrev pub end_of : ℕ → List Typed → ℕ
  end_of now [] = now
  end_of now (k ∷ ks) = end_of (now + k.gap) ks

  abbrev pub last_value : V → List Typed → V
  last_value v [] = v
  last_value v (k ∷ ks) = last_value k.value ks

  -- Each value is another than the one before, and comes less than `ms` after it.
  abbrev pub IsQuick : V → List Typed → Type 0
  IsQuick v [] = Unit
  IsQuick v (k ∷ ks) = (same v k.value ≡ false) × (k.gap < ms) × IsQuick k.value ks

  -- One value of a burst: the timer starts again, and nothing is shown.
  typed-quick :
      (now gap : ℕ) (v : V) (s : Debounced V same ms)
      → s.timer ≡ some (now + ms)
      → gap < ms
      → same s.value v ≡ false
      → render V same ms (now + gap) v (fire V same ms (now + gap) s)
        ≡ record s { value = v; timer = some ((now + gap) + ms) }
  unfolding render fire
  typed-quick now gap v s e g new =
      let not_due : leb (now + ms) (now + gap) ≡ false = ground arith in simp (e, not_due, new) refl

  -- A quick burst ends with its last value, which waits, and what was shown before it is still shown.
  burst-quick :
      (now : ℕ) (ks : List Typed) (s : Debounced V same ms)
      → s.timer ≡ some (now + ms)
      → IsQuick s.value ks
      → burst now ks s
        ≡ record s { value = last_value s.value ks; timer = some (end_of now ks + ms) }
  burst-quick now [] s e h = ap (λ t. record s { timer = t }) e
  burst-quick now (k ∷ ks) s e (new, g, h) =
      ap (burst (now + k.gap) ks) (typed-quick now k.gap k.value s e g new)
      ∙ burst-quick (now + k.gap) ks
          (record s { value = k.value; timer = some ((now + k.gap) + ms) }) refl h

  -- While values follow each other in less than `ms`, what was shown before them stays; `ms` after
  -- the last one it is shown.
  pub burst-held :
      (now : ℕ) (ks : List Typed) (s : Debounced V same ms)
      → s.timer ≡ some (now + ms)
      → IsQuick s.value ks
      → ((burst now ks s).shown ≡ s.shown)
        × ((fire V same ms (end_of now ks + ms) (burst now ks s)).shown ≡ last_value s.value ks)
  unfolding fire
  burst-held now ks s e h =
      let due : leb (end_of now ks + ms) (end_of now ks + ms) ≡ true = ground arith in
      rw (burst-quick now ks s e h) (rw due (refl, refl))
