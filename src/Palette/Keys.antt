-- ===== src/Palette/Keys.antt =====
-- The keys of frontend/src/components/CommandPalette.tsx: the selection stays on a listed command,
-- and what runs is the command that is selected.
use mathlib.Core.List.{Memᴰ}
use proxyforward.Common.{
  ℕ, zero, suc, ◌<◌, ◌≡◌, ◌≢◌, refl, Option, none, some, List, [], ◌∷◌, arith,
}
use proxyforward.Common.Lists.{length, get_elem?}
use proxyforward.Common.Decimal.{Text}
use proxyforward.Common.Int.{ℤ, pos, negsuc}
use proxyforward.Commands.{Command}
use proxyforward.Palette.{
  Palette, Event, input, arrow_down, arrow_up, enter, escape, scrim, hover, click, down, up, at,
  run_if, step, opened,
}

-- The selection is one of n results; with none it is 0, or -1 after the down key.
abbrev pub IsInRange : ℕ → ℤ → Type 0
IsInRange zero (pos i) = i ≡ 0
IsInRange zero (negsuc i) = i ≡ 0
IsInRange (suc n) (pos i) = i < suc n
IsInRange (suc n) (negsuc i) = ⊥

-- The pointer is over rows that are shown.
abbrev pub Fits : ℕ → Event → Type 0
Fits n (hover i) = i < n
Fits n (click i) = i < n
Fits n _ = Unit

first-IsInRange : (n : ℕ) → IsInRange n (pos 0)
first-IsInRange zero = refl
first-IsInRange (suc n) = omega arith

down-IsInRange : (n : ℕ) (i : ℤ) → IsInRange n i → IsInRange n (down n i)
unfolding down
down-IsInRange zero (pos i) h = refl
down-IsInRange zero (negsuc i) h = refl
down-IsInRange (suc n) (pos i) h = ground arith
down-IsInRange (suc n) (negsuc i) h = absurd h

up-IsInRange : (n : ℕ) (i : ℤ) → IsInRange n i → IsInRange n (up i)
unfolding up
up-IsInRange zero (pos i) h = omega arith
up-IsInRange (suc n) (pos i) h = omega arith
up-IsInRange n (negsuc i) h = first-IsInRange n

hover-IsInRange : (n i : ℕ) → i < n → IsInRange n (pos i)
hover-IsInRange zero i h = absurd (omega arith)
hover-IsInRange (suc n) i h = h

idx-run_if : (p : Palette) (o : Option Command) → (run_if p o).0.idx ≡ p.idx
idx-run_if p none = refl
idx-run_if p (some c) = refl

q-run_if : (p : Palette) (o : Option Command) → (run_if p o).0.q ≡ p.q
q-run_if p none = refl
q-run_if p (some c) = refl

-- Any run of events, where the results are those of the query at that time.
module _ (res : Text → List Command) where
  abbrev pub steps : Palette → List Event → Palette
  steps p [] = p
  steps p (e ∷ es) = steps (step (res p.q) p e).0 es

  abbrev pub AllFit : Palette → List Event → Type 0
  AllFit p [] = Unit
  AllFit p (e ∷ es) = Fits (length (res p.q)) e × AllFit (step (res p.q) p e).0 es

  abbrev Selects : Palette → Type 0
  Selects p = IsInRange (length (res p.q)) p.idx

  step-Selects :
      (p : Palette) (e : Event)
      → Fits (length (res p.q)) e
      → Selects p
      → Selects (step (res p.q) p e).0
  unfolding step
  step-Selects p (input q) f h = first-IsInRange _
  step-Selects p arrow_down f h = down-IsInRange (length (res p.q)) p.idx h
  step-Selects p arrow_up f h = up-IsInRange (length (res p.q)) p.idx h
  step-Selects p enter f h = rw (q-run_if, idx-run_if) h
  step-Selects p escape f h = h
  step-Selects p scrim f h = h
  step-Selects p (hover i) f h = hover-IsInRange (length (res p.q)) i f
  step-Selects p (click i) f h = rw (q-run_if, idx-run_if) h

  steps-Selects : (p : Palette) (es : List Event) → AllFit p es → Selects p → Selects (steps p es)
  steps-Selects p [] f h = h
  steps-Selects p (e ∷ es) (f, fs) h =
      steps-Selects (step (res p.q) p e).0 es fs (step-Selects p e f h)

-- A place in range holds a command of the list.
at-Mem :
    (cs : List Command) (i : ℤ)
    → cs ≢ []
    → IsInRange (length cs) i
    → (c : Command) × (at cs i ≡ some c) × Memᴰ c cs
unfolding at
at-Mem [] i n h = absurd (n refl)
at-Mem (c ∷ cs) (negsuc i) n h = absurd h
at-Mem (c ∷ cs) (pos i) n h = listed (c ∷ cs) i h
  where
    listed :
        (cs : List Command) (i : ℕ)
        → i < length cs
        → (c : Command) × (get_elem? cs i ≡ some c) × Memᴰ c cs
    listed [] i h = absurd (omega arith)
    listed (c ∷ cs) zero h = (c, refl, Memᴰ.head refl)
    listed (c ∷ cs) (suc i) h = let (d, e, m) = listed cs i (omega arith) in (d, e, Memᴰ.tail m)

snd-run_if : (p : Palette) (o : Option Command) → (run_if p o).1 ≡ o
snd-run_if p none = refl
snd-run_if p (some c) = refl

enter-at :
    (cs : List Command) (p : Palette) {c : Command}
    → at cs p.idx ≡ some c
    → (step cs p enter).1 ≡ some c
unfolding step
enter-at cs p e = rw snd-run_if e

-- After any events on an open palette the selection is in range of the results, and while there
-- are results the Enter key runs the selected one of them.
pub enter_runs :
    (res : Text → List Command) (es : List Event)
    → AllFit res opened es
    → let p = steps res opened es in
      IsInRange (length (res p.q)) p.idx
      × (res p.q ≢ [] → (c : Command) × ((step (res p.q) p enter).1 ≡ some c) × Memᴰ c (res p.q))
enter_runs res es f =
    let p = steps res opened es in
    let range = steps-Selects res opened es f (first-IsInRange _) in
    (
      range,
      λ some_results.
          let (c, e, m) = at-Mem (res p.q) p.idx some_results range in
          (c, enter-at (res p.q) p e, m),
    )

-- A palette that is closing still runs commands: a second Enter or click before the 150 ms are over
-- runs the command again.
pub run_again :
    (cs : List Command) (p : Palette) {c : Command}
    → (step cs p enter).1 ≡ some c
    → (step cs (step cs p enter).0 enter).1 ≡ some c
unfolding step
run_again cs p h = rw (snd-run_if, idx-run_if) (rw snd-run_if at h)
