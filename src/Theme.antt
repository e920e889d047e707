-- ===== src/Theme.antt =====
-- frontend/src/theme.ts: the theme preference and the animated swap. The state is what the module
-- and the page keep, and the callbacks that the browser has still to call: a view transition calls
-- `apply` and, when its sweep is over, the clean-up with the token that it was given; timers take
-- the other classes off. The browser calls them in any order.
pub mod Invariant
pub mod Sweeps
use Prim.Native.String.{String}
use proxyforward.Common.{ℕ, suc, Bool, true, false, not, Option, none, some, List, [], ◌∷◌, ◌-◌}
use proxyforward.Common.Tests.{◌==◌, if◌then◌else◌}
use proxyforward.Prefs.{Storage, write, holds, prefers_reduced}

-- `ThemePref`
pub data ThemePref : Type 0 where
  dark light system : ThemePref

-- `ResolvedTheme`
pub data Resolved : Type 0 where
  dark light : Resolved

abbrev pub pref_text : ThemePref → String
pref_text dark = "dark"
pref_text light = "light"
pref_text system = "system"

-- `themePref`
unfoldable pub theme_pref : Storage → ThemePref
theme_pref s =
    if holds s "pf-theme" "light"
    then ThemePref.light
    else if holds s "pf-theme" "system"
    then system
    else ThemePref.dark

-- `resolvedTheme`, where the flag is `media.matches`
unfoldable pub resolved_theme : ThemePref → Bool → Resolved
resolved_theme system matches = if matches then Resolved.dark else Resolved.light
resolved_theme dark matches = Resolved.dark
resolved_theme light matches = Resolved.light

-- `===` on resolved themes
abbrev pub same_theme : Resolved → Resolved → Bool
same_theme dark dark = true
same_theme light light = true
same_theme _ _ = false

-- `colour` is the native window's background, `snap` the classes pf-theme-snap and pf-relight,
-- which are always added and removed together, `anim` the class pf-theme-anim. `mutations` are
-- the transitions whose `apply` is due, `sweeps` the tokens of those that are not over.
pub record Theme : Type 0 where
  pub storage : Storage
  pub matches : Bool
  pub reduce : Bool
  pub transitions : Bool
  pub attribute : Resolved
  pub colour : ℕ × ℕ × ℕ
  pub notified : ℕ
  pub token : ℕ
  pub snap : Bool
  pub reglaze : Bool
  pub anim : Bool
  pub mutations : ℕ
  pub sweeps : List ℕ

abbrev pub resolved : Theme → Resolved
resolved t = resolved_theme (theme_pref t.storage) t.matches

abbrev pub colour_of : Resolved → ℕ × ℕ × ℕ
colour_of light = (236, 238, 246)
colour_of dark = (11, 13, 19)

-- `apply`
unfoldable pub apply : Theme → Theme
apply t = record t {
  attribute = resolved t;
  colour = colour_of (resolved t);
  notified = suc t.notified;
}

-- `animateSwap(apply)`: at once under reduced motion; beneath a view transition, whose callback
-- comes later; or at once with the cross-fade where there are none.
unfoldable pub animate_swap : Theme → Theme
animate_swap t =
    if prefers_reduced t.storage t.reduce
    then apply t
    else if t.transitions
    then record t {
      reglaze = true;
      token = suc t.token;
      snap = true;
      mutations = suc t.mutations;
      sweeps = suc t.token ∷ t.sweeps;
    }
    else apply (record t { reglaze = true; anim = true })

-- `setThemePref`; that the backend is told as well changes nothing here.
unfoldable pub set_theme_pref : ThemePref → Theme → Theme
set_theme_pref pref t =
    let t' = record t { storage = write "pf-theme" (some (pref_text pref)) t.storage } in
    if same_theme (resolved t') (resolved t) then apply t' else animate_swap t'

-- `resolvedTheme() === 'dark' ? 'light' : 'dark'`
abbrev pub opposite : Resolved → ThemePref
opposite dark = ThemePref.light
opposite light = ThemePref.dark

-- `toggleTheme`
unfoldable pub toggle_theme : Theme → Theme
toggle_theme t = set_theme_pref (opposite (resolved t)) t

-- `initTheme`
unfoldable pub init_theme : Theme → Theme
init_theme t = apply t

-- The listener of `media`: the system's theme has changed.
unfoldable pub system_change : Bool → Theme → Theme
system_change matches t =
    let t' = record t { matches = matches } in
    elim (theme_pref t.storage) [ system ↦ animate_swap t' | dark ↦ t' | light ↦ t' ]

-- A view transition calls its callback.
unfoldable pub mutate : Theme → Theme
mutate t = apply (record t { mutations = t.mutations - 1 })

-- `done`, for the sweep of a token: only the last sweep's clean-up takes the freeze off.
unfoldable pub done : ℕ → Theme → Theme
done n t = if n == t.token then record t { snap = false } else t

abbrev pub remove : ℕ → List ℕ → List ℕ
remove n [] = []
remove n (m ∷ ms) = if m == n then ms else m ∷ remove n ms

-- The transition of a token is over.
unfoldable pub finish : ℕ → Theme → Theme
unfolding done
finish n t = done n (record t { sweeps = remove n t.sweeps })

-- The timers of `animateSwap`.
unfoldable pub end_reglaze : Theme → Theme
end_reglaze t = record t { reglaze = false }

unfoldable pub end_anim : Theme → Theme
end_anim t = record t { anim = false }
