-- ===== src/Panel.antt =====
-- The pages of the panel (apps/web/src/app/(panel)): a state for each page, with a step for each event
-- and the effects that it has. The answer to a request is an event of its own.
pub mod Runs
pub mod Dialog
pub mod Cron
pub mod Threats
pub mod Compose
pub mod Docker
pub mod Databases
pub mod Firewall
pub mod Backups
pub mod Notifications
pub mod Ftp
pub mod Inline
pub mod Redirects
pub mod Subdomains
pub mod SshKeys
pub mod Autoresponders
pub mod MailQueue
pub mod Forwarders
