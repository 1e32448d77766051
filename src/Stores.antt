-- ===== src/Stores.antt =====
-- The panel's client-side stores: the recent servers, the interface state and the command palette.
pub mod Servers
pub mod Ui
pub mod Palette
