-- ===== src/Audit.antt =====
-- packages/audit-sdk: the outcome of publishing an audit event.
pub mod Response
