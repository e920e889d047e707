-- ===== src/Theme/Sweeps.antt =====
-- The freeze of frontend/src/theme.ts under rapid swaps, and the preference that is read back.
use proxyforward.Common.{
  ℕ, suc, ◌≤◌, ◌<◌, ◌≡◌, refl, sym, ◌∙◌, false, some, List, [], ◌∷◌, arith, inl, inr,
}
use proxyforward.Common.Tests.{◌==◌, Bool-cases, ==_iff}
use proxyforward.Prefs.{prefers_reduced, write}
use proxyforward.Theme.{
  opposite, ThemePref, dark, light, system, Resolved, pref_text, theme_pref, resolved_theme,
  same_theme, Theme, resolved, apply, animate_swap, set_theme_pref, toggle_theme, mutate, remove,
  finish, end_reglaze, end_anim,
}
use proxyforward.Theme.Invariant.{
  occurs, Step, set, toggle, os, mutated, finished, reglazed, faded, still, Reach, here, next,
  changed, system_change-eq-changed,
}

-- The tokens of the running sweeps descend, from below n.
abbrev pub Descends : ℕ → List ℕ → Type 0
Descends n [] = Unit
Descends n (m ∷ ms) = (m < n) × Descends m ms

-- The freeze is on exactly while the last sweep runs; an older sweep's end does not take it off.
pub record IsFrozen (t : Theme) : Type 0 where
  pub snap : t.snap ≡ occurs t.token t.sweeps
  pub order : Descends (suc t.token) t.sweeps

occurs-above : (n k : ℕ) (ms : List ℕ) → Descends k ms → k ≤ n → occurs n ms ≡ false
occurs-above n k [] d h = refl
occurs-above n k (m ∷ ms) (l, d) h = ground (arith, occurs-above n m ms d)

Descends-mono : (j k : ℕ) (ms : List ℕ) → j ≤ k → Descends j ms → Descends k ms
Descends-mono j k [] h d = tt
Descends-mono j k (m ∷ ms) h (l, d) = (omega arith, d)

Descends-remove : (n k : ℕ) (ms : List ℕ) → Descends k ms → Descends k (remove n ms)
Descends-remove n k [] d = tt
Descends-remove n k (m ∷ ms) (l, d) = elim (Bool-cases (m == n)) [
  | inl e ↦ rw e (Descends-mono m k ms (omega arith) d)
  | inr e ↦ rw e (l, Descends-remove n m ms d)
]

-- To end one sweep leaves the others.
occurs-remove_self : (n k : ℕ) (ms : List ℕ) → Descends k ms → occurs n (remove n ms) ≡ false
occurs-remove_self n k [] d = refl
occurs-remove_self n k (m ∷ ms) (l, d) = elim (Bool-cases (m == n)) [
  | inl e ↦ rw e (occurs-above n m ms d (ground arith))
  | inr e ↦ rw e (rw e (occurs-remove_self n m ms d))
]

occurs-remove_ne : (n j : ℕ) (ms : List ℕ) → (n == j) ≡ false → occurs j (remove n ms) ≡ occurs j ms
occurs-remove_ne n j [] h = refl
occurs-remove_ne n j (m ∷ ms) h = elim (Bool-cases (m == n)) [
  | inl e ↦ rw e (ground arith)
  | inr e ↦ rw e (rw (occurs-remove_ne n j ms h))
]

animate_swap-IsFrozen : (t : Theme) → IsFrozen t → IsFrozen (animate_swap t)
unfolding animate_swap apply
animate_swap-IsFrozen t h = elim (Bool-cases (prefers_reduced t.storage t.reduce)) [
  | inl r ↦ simp r (record { snap = h.snap; order = h.order })
  | inr r ↦ elim (Bool-cases t.transitions) [
    | inl v ↦ simp (r, v) (record { snap = ground arith; order = (omega arith, h.order) })
    | inr v ↦ simp (r, v) (record { snap = h.snap; order = h.order })
  ]
]

set_theme_pref-IsFrozen : (p : ThemePref) (t : Theme) → IsFrozen t → IsFrozen (set_theme_pref p t)
unfolding set_theme_pref apply
set_theme_pref-IsFrozen p t h =
    let t' = record t { storage = write "pf-theme" (some (pref_text p)) t.storage } in
    elim (Bool-cases (same_theme (resolved t') (resolved t))) [
      | inl e ↦ rw e (record { snap = h.snap; order = h.order })
      | inr e ↦ rw e (animate_swap-IsFrozen t' (record { snap = h.snap; order = h.order }))
    ]

changed-IsFrozen : (p : ThemePref) (t : Theme) → IsFrozen t → IsFrozen (changed p t)
changed-IsFrozen system t h = animate_swap-IsFrozen t h
changed-IsFrozen dark t h = h
changed-IsFrozen light t h = h

finish-IsFrozen : (n : ℕ) (t : Theme) → IsFrozen t → IsFrozen (finish n t)
unfolding finish
finish-IsFrozen n t h =
    let order = Descends-remove n (suc t.token) t.sweeps h.order in
    elim (Bool-cases (n == t.token)) [
      | inl e ↦
          let last : n ≡ t.token = (==_iff _ _).0 e in
          simp e (record {
            snap = sym (rw (← last) (occurs-remove_self n (suc t.token) t.sweeps h.order));
            order = order;
          })
      | inr e ↦
          simp e
            (record { snap = h.snap ∙ sym (occurs-remove_ne n t.token t.sweeps e); order = order })
    ]

Step-IsFrozen : {t u : Theme} → Step t u → IsFrozen t → IsFrozen u
Step-IsFrozen {t} (set p) h = set_theme_pref-IsFrozen p t h
Step-IsFrozen {t} toggle h = unfold toggle_theme in set_theme_pref-IsFrozen _ t h
Step-IsFrozen {t} (os b) h =
    rw system_change-eq-changed
      (changed-IsFrozen (theme_pref t.storage) _ (record { snap = h.snap; order = h.order }))
Step-IsFrozen {t} (mutated m) h = unfold mutate apply in record { snap = h.snap; order = h.order }
Step-IsFrozen {t} (finished n m) h = finish-IsFrozen n t h
Step-IsFrozen reglazed h = unfold end_reglaze in record { snap = h.snap; order = h.order }
Step-IsFrozen faded h = unfold end_anim in record { snap = h.snap; order = h.order }
Step-IsFrozen (still b) h = record { snap = h.snap; order = h.order }

-- Through any steps from a page at rest, the freeze of the swap is on exactly while the sweep of
-- the last token runs: a second toggle keeps it on when the first one's sweep is over.
pub Reach-IsFrozen :
    (t : Theme) {u : Theme} → t.snap ≡ false → t.sweeps ≡ [] → Reach t u → IsFrozen u
Reach-IsFrozen t off none_run here = record { snap = rw none_run off; order = rw none_run tt }
Reach-IsFrozen t off none_run (next r s) = Step-IsFrozen s (Reach-IsFrozen t off none_run r)

theme_pref-set_theme_pref :
    (p : ThemePref) (t : Theme) → theme_pref (write "pf-theme" (some (pref_text p)) t.storage) ≡ p
unfolding theme_pref
theme_pref-set_theme_pref dark t = refl
theme_pref-set_theme_pref light t = refl
theme_pref-set_theme_pref system t = refl

storage-animate_swap : (t : Theme) → (animate_swap t).storage ≡ t.storage
unfolding animate_swap apply
storage-animate_swap t = elim (Bool-cases (prefers_reduced t.storage t.reduce)) [
  | inl r ↦ simp r
  | inr r ↦ elim (Bool-cases t.transitions) [ inl v ↦ simp (r, v) | inr v ↦ simp (r, v) ]
]

matches-animate_swap : (t : Theme) → (animate_swap t).matches ≡ t.matches
unfolding animate_swap apply
matches-animate_swap t = elim (Bool-cases (prefers_reduced t.storage t.reduce)) [
  | inl r ↦ simp r
  | inr r ↦ elim (Bool-cases t.transitions) [ inl v ↦ simp (r, v) | inr v ↦ simp (r, v) ]
]

-- The preference is read back as it was set, whether the swap is silent or animated, and so it
-- resolves by the system's theme.
pub set_theme_pref_reads :
    (p : ThemePref) (t : Theme)
    → (theme_pref (set_theme_pref p t).storage ≡ p)
      × (resolved (set_theme_pref p t) ≡ resolved_theme p t.matches)
unfolding set_theme_pref apply
set_theme_pref_reads p t =
    let t' = record t { storage = write "pf-theme" (some (pref_text p)) t.storage } in
    let reads = theme_pref-set_theme_pref p t in
    elim (Bool-cases (same_theme (resolved t') (resolved t))) [
      | inl e ↦ rw e (reads, rw reads refl)
      | inr e ↦ rw e (
        rw (storage-animate_swap t') reads,
        rw (storage-animate_swap t', matches-animate_swap t', reads) refl,
      )
    ]

abbrev pub other : Resolved → Resolved
other dark = light
other light = dark

-- The quick toggle always lands on the other theme than the one that was resolved.
pub resolved-toggle_theme : (t : Theme) → resolved (toggle_theme t) ≡ other (resolved t)
unfolding toggle_theme
resolved-toggle_theme t = (set_theme_pref_reads (opposite (resolved t)) t).1 ∙ flipped (resolved t)
  where
    flipped : (r : Resolved) → resolved_theme (opposite r) t.matches ≡ other r
    flipped dark = unfold resolved_theme in refl
    flipped light = unfold resolved_theme in refl
