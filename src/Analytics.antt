-- ===== src/Analytics.antt =====
-- The analytics screen, frontend/src/screens/Analytics.tsx: the uptime bands and the replay of a
-- session.
pub mod Uptime
pub mod Replay
