-- ===== src/Theme/Invariant.antt =====
-- The steps of frontend/src/theme.ts, and what the page shows through them.
use proxyforward.Common.{
  ℕ, ◌<◌, ◌≡◌, refl, ◌∙◌, ◌||◌, Bool, true, false, some, List, [], ◌∷◌, arith, inl, inr,
}
use proxyforward.Common.Tests.{◌==◌, Bool-cases}
use proxyforward.Prefs.{prefers_reduced, write}
use proxyforward.Theme.{
  pref_text, ThemePref, dark, light, system, theme_pref, resolved_theme, same_theme, Theme,
  resolved, colour_of, apply, animate_swap, set_theme_pref, toggle_theme, init_theme, system_change,
  mutate, finish, end_reglaze, end_anim,
}

-- The sweep of a token runs.
abbrev pub occurs : ℕ → List ℕ → Bool
occurs n [] = false
occurs n (m ∷ ms) = m == n || occurs n ms

-- What may happen to the page, changes of the system's animation setting included.
pub data Step (t : Theme) : Theme → Type 0 where
  set : (p : ThemePref) → Step t (set_theme_pref p t)
  toggle : Step t (toggle_theme t)
  os : (b : Bool) → Step t (system_change b t)
  mutated : 0 < t.mutations → Step t (mutate t)
  finished : (n : ℕ) → occurs n t.sweeps ≡ true → Step t (finish n t)
  reglazed : Step t (end_reglaze t)
  faded : Step t (end_anim t)
  still : (b : Bool) → Step t (record t { reduce = b })

-- The page shows the theme of the preference, as the native window's colour does, unless a view
-- transition is yet to call back.
pub record IsShown (t : Theme) : Type 0 where
  pub attribute : t.mutations ≡ 0 → t.attribute ≡ resolved t
  pub colour : t.colour ≡ colour_of t.attribute

apply-IsShown : (t : Theme) → IsShown (apply t)
unfolding apply
apply-IsShown t = record { attribute = λ e. refl; colour = refl }

animate_swap-IsShown : (t : Theme) → t.colour ≡ colour_of t.attribute → IsShown (animate_swap t)
unfolding animate_swap
animate_swap-IsShown t h = elim (Bool-cases (prefers_reduced t.storage t.reduce)) [
  | inl r ↦ simp r (apply-IsShown t)
  | inr r ↦ elim (Bool-cases t.transitions) [
    | inl v ↦ simp (r, v) (record { attribute = λ e. absurd (omega arith); colour = h })
    | inr v ↦ simp (r, v) (apply-IsShown _)
  ]
]

set_theme_pref-IsShown : (p : ThemePref) (t : Theme) → IsShown t → IsShown (set_theme_pref p t)
unfolding set_theme_pref
set_theme_pref-IsShown p t h =
    let t' = record t { storage = write "pf-theme" (some (pref_text p)) t.storage } in
    elim (Bool-cases (same_theme (resolved t') (resolved t))) [
      | inl e ↦ rw e (apply-IsShown t')
      | inr e ↦ rw e (animate_swap-IsShown t' h.colour)
    ]

-- A change of the system's theme, by the preference.
abbrev pub changed : ThemePref → Theme → Theme
changed system t = animate_swap t
changed dark t = t
changed light t = t

pub system_change-eq-changed :
    (b : Bool) (t : Theme)
    → system_change b t ≡ changed (theme_pref t.storage) (record t { matches = b })
unfolding system_change
system_change-eq-changed b t = same (theme_pref t.storage)
  where
    same :
        (p : ThemePref)
        → (elim p [
          | system ↦ animate_swap (record t { matches = b })
          | dark ↦ record t { matches = b }
          | light ↦ record t { matches = b }
        ])
          ≡ changed p (record t { matches = b })
    same system = refl
    same dark = refl
    same light = refl

changed-IsShown :
    (p : ThemePref) (b : Bool) (t : Theme)
    → theme_pref t.storage ≡ p
    → IsShown t
    → IsShown (changed p (record t { matches = b }))
changed-IsShown system b t e h = animate_swap-IsShown (record t { matches = b }) h.colour
changed-IsShown dark b t e h = record {
  attribute = λ z. h.attribute z ∙ rw e (unfold resolved_theme in refl);
  colour = h.colour;
}
changed-IsShown light b t e h = record {
  attribute = λ z. h.attribute z ∙ rw e (unfold resolved_theme in refl);
  colour = h.colour;
}

finish-IsShown : (n : ℕ) (t : Theme) → IsShown t → IsShown (finish n t)
unfolding finish
finish-IsShown n t h = elim (Bool-cases (n == t.token)) [
  | inl e ↦ simp e (record { attribute = h.attribute; colour = h.colour })
  | inr e ↦ simp e (record { attribute = h.attribute; colour = h.colour })
]

Step-IsShown : {t u : Theme} → Step t u → IsShown t → IsShown u
Step-IsShown {t} (set p) h = set_theme_pref-IsShown p t h
Step-IsShown {t} toggle h = unfold toggle_theme in set_theme_pref-IsShown _ t h
Step-IsShown {t} (os b) h =
    rw system_change-eq-changed (changed-IsShown (theme_pref t.storage) b t refl h)
Step-IsShown {t} (mutated m) h = unfold mutate in apply-IsShown _
Step-IsShown {t} (finished n m) h = finish-IsShown n t h
Step-IsShown reglazed h =
    unfold end_reglaze in record { attribute = h.attribute; colour = h.colour }
Step-IsShown faded h = unfold end_anim in record { attribute = h.attribute; colour = h.colour }
Step-IsShown (still b) h = record { attribute = h.attribute; colour = h.colour }

pub data Reach (t : Theme) : Theme → Type 0 where
  here : Reach t t
  next : {u v : Theme} → Reach t u → Step u v → Reach t v

-- From the start of the page on, whatever is set, whatever the system does and in whatever order
-- the browser calls back: once no view transition is to call back, the page shows the theme of the
-- preference, and the native window's colour always fits the page.
pub Reach-IsShown : (t : Theme) {u : Theme} → Reach (init_theme t) u → IsShown u
Reach-IsShown t here = unfold init_theme in apply-IsShown t
Reach-IsShown t (next r s) = Step-IsShown s (Reach-IsShown t r)
