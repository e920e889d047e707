-- ===== src/Settings/Staged/Clean.antt =====
-- Whether what the settings screen (frontend/src/screens/Settings.tsx) shows as saved is what the
-- backend has stored, and what becomes of an edit that is made while a save runs.
use proxyforward.Settings.Staged.{Settings}
