-- ===== src/Api.antt =====
-- apps/web/src/lib/api: the calls of the wrappers as data, a method with a path and the body it sends.
-- What the server answers is left to the code that makes the call.
pub mod Calls
pub mod Fields
pub mod Auth
pub mod Dns
pub mod Cron
pub mod Docker
pub mod Databases
pub mod Security
pub mod Hosting
pub mod Mail
pub mod Backups
