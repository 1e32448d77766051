-- ===== src/Tests.antt =====
-- Runs of the model on concrete inputs, and the theorems at concrete inputs.
mod Auth
mod Http
mod Live
mod Stores
mod Dns
mod SignIn
mod Panel
mod Hosting
mod Docker
mod Files
mod Dialogs
