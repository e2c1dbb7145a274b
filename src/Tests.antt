-- ===== src/Tests.antt =====
-- Concrete inputs at which the theorems' hypotheses hold.
mod Fixtures
mod Payments
mod Routing
mod Webhooks
mod Adapters
mod Controllers
mod Server
mod Access
