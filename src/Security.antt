-- ===== src/Security.antt =====
-- backend/security: roles, keys, tenants, the audit chain and idempotent requests.
pub mod Rbac
pub mod Audit
pub mod Idempotency
pub mod Auth
pub mod Tenant
