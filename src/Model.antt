-- ===== src/Model.antt =====
-- The tables: app/models and the constraints of alembic/versions.
pub mod Invoice
pub mod Payment
pub mod Webhook
pub mod Tenant
pub mod Db
