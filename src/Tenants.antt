-- ===== src/Tenants.antt =====
-- src/modules/tenants/
pub mod ApiKeys
