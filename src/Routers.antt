-- ===== src/Routers.antt =====
-- app/routers: what a handler answers, and how it translates the exceptions of the services. A
-- handler runs on the committed tables, and what it leaves uncommitted is rolled back (`get_db`).
pub mod Payments
pub mod Invoices
pub mod Customers
pub mod Webhooks
pub mod Laws
pub mod Tenancy
