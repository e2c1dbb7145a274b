-- ===== src/Payments.antt =====
-- src/modules/payments: the status machine, the service and the reconciliation of stale payments.
pub mod Machine
pub mod Create
pub mod Refund
pub mod Listing
pub mod Reconciliation
