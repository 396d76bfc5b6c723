-- ===== src/Session.antt =====
-- The state of a session: who is signed in, the preferences and the theme.
pub mod Auth
pub mod Preferences
pub mod Theme
pub mod Flight
