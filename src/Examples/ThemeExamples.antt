-- ===== src/Examples/ThemeExamples.antt =====
-- Examples for the theme.
use proxyforward.Common.{◌≡◌, refl, false, true, none, [], ◌∷◌}
use proxyforward.Theme.{
  Resolved, Theme, theme_pref, resolved_theme, init_theme, set_theme_pref, toggle_theme, finish,
  animate_swap, apply,
}
use proxyforward.Prefs.{prefers_reduced}
use proxyforward.Theme.Invariant.{Step, Reach, IsShown, Reach-IsShown}
use proxyforward.Theme.Sweeps.{IsFrozen, Reach-IsFrozen}

-- A page with view transitions, before the first paint.
abbrev blank : Theme
blank = record {
  storage = λ k. none;
  matches = true;
  reduce = false;
  transitions = true;
  attribute = Resolved.dark;
  colour = (11, 13, 19);
  notified = 0;
  token = 0;
  snap = false;
  reglaze = false;
  anim = false;
  mutations = 0;
  sweeps = [];
}

abbrev once : Theme
once = toggle_theme (init_theme blank)

-- Two quick toggles, and the end of the first sweep.
abbrev twice : Theme
twice = finish 1 (toggle_theme once)

once_runs : once.sweeps ≡ 1 ∷ []
unfolding init_theme toggle_theme set_theme_pref animate_swap resolved_theme theme_pref apply
    prefers_reduced
once_runs = refl

run : Reach (init_theme blank) twice
unfolding init_theme toggle_theme set_theme_pref animate_swap finish resolved_theme theme_pref apply
    prefers_reduced
run = Reach.next (Reach.next (Reach.next Reach.here Step.toggle) Step.toggle) (Step.finished 1 refl)

twice_snap : twice.snap ≡ true
unfolding init_theme toggle_theme set_theme_pref animate_swap finish resolved_theme theme_pref apply
    prefers_reduced
twice_snap = refl

Reach-IsShown_example : IsShown twice
Reach-IsShown_example = Reach-IsShown blank run

at_rest : ((init_theme blank).snap ≡ false) × ((init_theme blank).sweeps ≡ [])
unfolding init_theme apply
at_rest = (refl, refl)

Reach-IsFrozen_example : IsFrozen twice
Reach-IsFrozen_example = Reach-IsFrozen (init_theme blank) (at_rest.0) (at_rest.1) run
