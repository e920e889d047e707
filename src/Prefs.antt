-- ===== src/Prefs.antt =====
-- The preferences that the frontend keeps in localStorage: frontend/src/motion.ts,
-- frontend/src/fx.ts and the chart preferences of frontend/src/history.ts. `Laws` has the theorems.
pub mod Laws
use Prim.Native.String.{String}
use text.Mathlib.Text.{◌==◌ as str_eq}
use proxyforward.Common.{ℕ, suc, Bool, true, false, not, ◌&&◌, ◌||◌, Option, none, some}
use proxyforward.Common.Tests.{if◌then◌else◌}

-- `localStorage`
abbrev pub Storage : Type 0
Storage = String → Option String

-- `setItem` and `removeItem`
abbrev pub write : String → Option String → Storage → Storage
write k v s j = if str_eq k j then v else s j

-- `localStorage.getItem(k) === v`
abbrev pub holds : Storage → String → String → Bool
holds s k v = elim (s k) [ none ↦ false | some w ↦ str_eq w v ]

-- `MotionPref`
pub data MotionPref : Type 0 where
  on off system : MotionPref

-- `motionPref`
unfoldable pub motion_pref : Storage → MotionPref
motion_pref s =
    if holds s "pf-motion" "off" then off else if holds s "pf-motion" "system" then system else on

-- `prefersReduced`, where the flag is the system's signal
unfoldable pub prefers_reduced : Storage → Bool → Bool
unfolding motion_pref
prefers_reduced s reduce = elim (motion_pref s) [ system ↦ reduce | off ↦ true | on ↦ false ]

-- The attribute data-motion that `stamp` leaves on the root element.
unfoldable pub stamp : MotionPref → Option String
stamp system = none
stamp on = some "on"
stamp off = some "off"

-- What the preference modules keep: the storage, the attributes data-motion and data-fx of the
-- root element, and how often the listeners were called.
pub record Prefs : Type 0 where
  pub storage : Storage
  pub motion : Option String
  pub fx : Option String
  pub notified : ℕ

-- What `setMotionPref` stores.
abbrev stored_motion : MotionPref → Option String
stored_motion on = none
stored_motion off = some "off"
stored_motion system = some "system"

-- `setMotionPref`: the default is not stored.
unfoldable pub set_motion_pref : MotionPref → Prefs → Prefs
unfolding stamp
set_motion_pref v p = record p {
  storage = write "pf-motion" (stored_motion v) p.storage;
  motion = stamp v;
  notified = suc p.notified;
}

-- `initMotion`
unfoldable pub init_motion : Prefs → Prefs
unfolding motion_pref stamp
init_motion p = record p { motion = stamp (motion_pref p.storage) }

-- `fxPref`: an absent value is the empty text.
unfoldable pub fx_pref : Storage → String
fx_pref s = elim (s "pf-fx") [ none ↦ "" | some v ↦ v ]

-- `v ? v : (deleted)`
abbrev pub non_empty : String → Option String
non_empty v = if str_eq v "" then none else some v

-- `setFxPref`
unfoldable pub set_fx_pref : String → Prefs → Prefs
set_fx_pref v p = record p { storage = write "pf-fx" (non_empty v) p.storage; fx = non_empty v }

-- `initFx`: an empty value leaves the attribute as it is.
unfoldable pub init_fx : Prefs → Prefs
unfolding fx_pref
init_fx p = if str_eq (fx_pref p.storage) "" then p else record p { fx = some (fx_pref p.storage) }
