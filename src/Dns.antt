-- ===== src/Dns.antt =====
-- The DNS records of a zone (apps/web/src/components/dns): the form, and the table that opens it.
pub mod Types
pub mod Form
pub mod Table
