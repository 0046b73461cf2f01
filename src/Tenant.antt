-- ===== src/Tenant.antt =====
-- Tenants: their rows, and who may do what.
pub mod Store
pub mod Access
pub mod Principal
pub mod Authorization
mod Examples
