-- ===== src/Auth.antt =====
-- The session of the signed-in user: its state and browser, the store, the role table, the permissions
-- and the two-factor page.
pub mod Browser
pub mod Store
pub mod Session
pub mod Roles
pub mod Access
pub mod TwoFactor
