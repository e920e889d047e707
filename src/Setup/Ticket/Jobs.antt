-- ===== src/Setup/Ticket/Jobs.antt =====
-- Lists of attempts to issue a pairing code (frontend/src/screens/Wizard.tsx).
use mathlib.Core.Path.{subst}
use proxyforward.Common.{ℕ, zero, suc, ◌+◌, ◌≡◌, refl, none, some, List, [], ◌∷◌, ◌++◌, arith}
use proxyforward.Common.Tests.{◌==◌, if◌then◌else◌, some-inj}
use proxyforward.Common.Lists.{get_elem?, All}
use proxyforward.Setup.Ticket.{Job, remove_at}

-- The attempts of a run
abbrev pub count : ℕ → List Job → ℕ
count run [] = 0
count run (j ∷ js) = (if j.run == run then 1 else 0) + count run js

pub count-snoc :
    (run : ℕ) (js : List Job) (j : Job)
    → count run (js ++ j ∷ []) ≡ count run js + (if j.run == run then 1 else 0)
count-snoc run [] j = omega arith
count-snoc run (k ∷ js) j = omega (arith, count-snoc run js j)

pub count-remove :
    (run : ℕ) (js : List Job) (i : ℕ) (j : Job)
    → get_elem? js i ≡ some j
    → count run js ≡ (if j.run == run then 1 else 0) + count run (remove_at js i)
count-remove run [] i j h = let clash : none ≡ some j = h in cc
count-remove run (k ∷ js) zero j h = rw (some-inj h) refl
count-remove run (k ∷ js) (suc i) j h = omega (arith, count-remove run js i j h)

pub All-remove : (P : Job → Type 0) (js : List Job) (i : ℕ) → All P js → All P (remove_at js i)
All-remove P [] i h = tt
All-remove P (k ∷ js) zero (p, h) = h
All-remove P (k ∷ js) (suc i) (p, h) = (p, All-remove P js i h)

pub All-get :
    (P : Job → Type 0) (js : List Job) (i : ℕ) (j : Job) → get_elem? js i ≡ some j → All P js → P j
All-get P [] i j h g = let clash : none ≡ some j = h in cc
All-get P (k ∷ js) zero j h (p, g) = subst P (some-inj h) p
All-get P (k ∷ js) (suc i) j h (p, g) = All-get P js i j h g
