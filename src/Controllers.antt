-- ===== src/Controllers.antt =====
-- The controllers of the API: a route with its guards, in the order in which they run. The global
-- throttler runs before them and sees no tenant yet, so it lets every request of these routes pass.
pub mod Payments
pub mod Tenants
pub mod Auth
pub mod Access
pub mod Writing
pub mod Agreement
pub mod OtherTenants
