-- ===== src/Settings/Staged/Unsaved.antt =====
-- What becomes of an edit, an error and a theme that come beside a save of the settings screen
-- (frontend/src/screens/Settings.tsx).
use proxyforward.Common.{◌≡◌, refl, true, false, some, inl, inr}
use proxyforward.Common.Tests.{Bool-cases}
use proxyforward.Common.Decimal.{Text, codes}
use proxyforward.Settings.{Config, folded}
use proxyforward.Settings.Staged.{
  sending, restarting, Settings, patch, save_clicked, finish, saved, restarted, restart_failed,
  shown_note, set_theme,
}

-- An edit that is made while SaveSettings runs is lost when it returns.
pub patch-saved :
    (s : Settings) (f : Config → Config) (c out : Config)
    → s.cfg ≡ some c
    → s.save ≡ sending out
    → (saved (patch f s)).cfg ≡ some out
unfolding patch saved finish
patch-saved s f c out e g = elim (Bool-cases s.attached) [
  | inl a ↦ simp (e, g, a) refl
  | inr a ↦ simp (e, g, a) refl
]

-- An edit that is made while the engine restarts stays on the screen, but without the mark of
-- unsaved changes: it is not stored, and there is nothing to save it with.
pub patch-restarted :
    (s : Settings) (f : Config → Config) (c : Config)
    → s.cfg ≡ some c
    → s.save ≡ restarting
    → ((restarted (patch f s)).cfg ≡ some (f c))
      × ((restarted (patch f s)).stored ≡ s.stored)
      × ((restarted (patch f s)).dirty ≡ false)
      × (save_clicked (restarted (patch f s)) ≡ restarted (patch f s))
unfolding patch restarted finish save_clicked
patch-restarted s f c e g = simp (e, g) (refl, refl, refl, refl)

-- When the engine does not restart, the screen shows the error, and at the same time that the engine
-- has reconnected with the new settings.
pub restart_failed-note :
    (s : Settings) (e : Text)
    → s.save ≡ restarting
    → ((restart_failed e s).err ≡ e)
      × (shown_note (restart_failed e s)
          ≡ codes "Saved. The engine reconnected with the new settings.")
unfolding restart_failed shown_note finish
restart_failed-note s e g = simp g (refl, refl)

-- A theme that is chosen on the screen is stored at once; a save of other changes that follows,
-- when none runs, stores the one again that the screen was loaded with.
pub saved-set_theme :
    (s : Settings) (c : Config) (theme : Text)
    → s.cfg ≡ some c
    → s.dirty ≡ true
    → s.saving ≡ false
    → ((set_theme theme s).stored.ui.theme ≡ theme)
      × ((saved (save_clicked (set_theme theme s))).stored.ui.theme ≡ c.ui.theme)
unfolding set_theme save_clicked saved finish folded
saved-set_theme s c theme e d b = elim (Bool-cases s.attached) [
  | inl a ↦ simp (e, d, b, a) (refl, refl)
  | inr a ↦ simp (e, d, b, a) (refl, refl)
]
