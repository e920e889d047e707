-- ===== src/Avatars.antt =====
-- frontend/src/components/AvatarImg.tsx: the head of a player, which is asked for again while the
-- asset server may still answer with its placeholder. A head is a number, and `settled`, which all
-- images share, is the list of the heads that need no more asking.
use mathlib.Core.Path.{subst}
use proxyforward.Common.{
  ℕ, ◌≤◌, ◌≡◌, ◌⊎◌, refl, sym, ◌∙◌, Bool, true, false, ◌||◌, List, [], ◌∷◌, arith, inl, inr,
}
use proxyforward.Common.Tests.{if◌then◌else◌, ltb, ◌==◌, by_test, Bool-cases}

-- An image: `timers` has the bumps that are to come.
pub record Avatar : Type 0 where
  pub id : ℕ
  pub bump : ℕ
  pub failed : Bool
  pub timers : List ℕ
  pub settled : List ℕ

abbrev pub has : ℕ → List ℕ → Bool
has n [] = false
has n (m ∷ ms) = m == n || has n ms

-- The effect at a change of `id`, after the clean-up of the one before
unfoldable pub ask : ℕ → Avatar → Avatar
ask id a = record a {
  id = id;
  failed = false;
  timers = if has id a.settled then [] else 1 ∷ 2 ∷ [];
}

-- An image that is mounted
unfoldable pub mount : ℕ → List ℕ → Avatar
unfolding ask
mount id settled =
    ask id (record { id = id; bump = 0; failed = false; timers = []; settled = settled })

-- The next timer
unfoldable pub fire : Avatar → Avatar
fire a = elim a.timers [ [] ↦ a | n ∷ rest ↦ record a { bump = n; timers = rest } ]

-- `onLoad`; an image that has failed shows the offline one, which has no handler.
unfoldable pub load : Avatar → Avatar
load a = if a.failed || ltb a.bump 2 then a else record a { settled = a.id ∷ a.settled }

-- `onError`
unfoldable pub fail : Avatar → Avatar
fail a = record a { failed = true }

pub data Event : Type 0 where
  firing loading failing : Event

unfoldable pub step : Event → Avatar → Avatar
unfolding fire load fail
step firing a = fire a
step loading a = load a
step failing a = fail a

unfoldable pub run : List Event → Avatar → Avatar
unfolding step
run [] a = a
run (e ∷ es) a = run es (step e a)

-- While a retry is to come, the settled heads are what they were.
abbrev pub IsPatient : List ℕ → Avatar → Type 0
IsPatient before a =
    ((a.timers ≡ 1 ∷ 2 ∷ []) × (a.bump ≡ 0) × (a.settled ≡ before))
    ⊎ ((a.timers ≡ 2 ∷ []) × (a.bump ≡ 1) × (a.settled ≡ before))
    ⊎ (a.timers ≡ [])

fire-IsPatient : (before : List ℕ) (a : Avatar) → IsPatient before a → IsPatient before (fire a)
unfolding fire
fire-IsPatient before a (inl (t, b, s)) = rw t (inr (inl (refl, refl, s)))
fire-IsPatient before a (inr (inl (t, b, s))) = rw t (inr (inr refl))
fire-IsPatient before a (inr (inr t)) = rw t (inr (inr refl))

load-early : (a : Avatar) → a.bump ≤ 1 → load a ≡ a
unfolding load
load-early a h = elim (Bool-cases a.failed) [
  | inl e ↦ rw e refl
  | inr e ↦ let early : ltb a.bump 2 ≡ true = ground (arith, h) in rw (e, early) refl
]

load-timers : (a : Avatar) → (load a).timers ≡ a.timers
unfolding load
load-timers a =
    by_test (λ (b : Avatar). b.timers ≡ a.timers) (a.failed || ltb a.bump 2) a
      (record a { settled = a.id ∷ a.settled }) (λ e. refl) (λ e. refl)

load-IsPatient : (before : List ℕ) (a : Avatar) → IsPatient before a → IsPatient before (load a)
load-IsPatient before a (inl (t, b, s)) =
    subst (IsPatient before) (sym (load-early a (omega arith))) (inl (t, b, s))
load-IsPatient before a (inr (inl (t, b, s))) =
    subst (IsPatient before) (sym (load-early a (omega arith))) (inr (inl (t, b, s)))
load-IsPatient before a (inr (inr t)) = inr (inr (load-timers a ∙ t))

step-IsPatient :
    (before : List ℕ) (e : Event) (a : Avatar) → IsPatient before a → IsPatient before (step e a)
unfolding step fail
step-IsPatient before firing a h = fire-IsPatient before a h
step-IsPatient before loading a h = load-IsPatient before a h
step-IsPatient before failing a h = h

run-IsPatient :
    (before : List ℕ) (es : List Event) (a : Avatar)
    → IsPatient before a
    → IsPatient before (run es a)
unfolding run
run-IsPatient before [] a h = h
run-IsPatient before (e ∷ es) a h = run-IsPatient before es (step e a) (step-IsPatient before e a h)

-- Over any events of a mounted image whose head is not settled, no head is settled before both of
-- its retries have been made.
pub run-mount :
    (id : ℕ) (settled : List ℕ) (es : List Event)
    → has id settled ≡ false
    → IsPatient settled (run es (mount id settled))
unfolding mount ask
run-mount id settled es h =
    run-IsPatient settled es (mount id settled) (rw h (inl (refl, refl, refl)))

-- An image that has made its retries, and is then given another head, settles that one when it
-- first loads, with both of its retries still to come.
pub load-ask :
    (id : ℕ) (a : Avatar)
    → a.bump ≡ 2
    → has id a.settled ≡ false
    → let b = load (ask id a) in (b.settled ≡ id ∷ a.settled) × (b.timers ≡ 1 ∷ 2 ∷ [])
unfolding load ask
load-ask id a h e = (rw h refl, rw (h, e) refl)
