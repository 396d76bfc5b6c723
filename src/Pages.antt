-- ===== src/Pages.antt =====
-- The pages, frontend/src/pages: what they derive, decide and send. A page is a child module.
pub mod Manage
pub mod Routes
pub mod Periods
pub mod Dashboard
pub mod ComparePage
pub mod Settings
pub mod Home
pub mod SignIn
pub mod Places
pub mod BillDetail
