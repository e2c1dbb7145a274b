-- ===== src/Webhooks.antt =====
-- src/modules/webhooks: the endpoint that providers call, the worker, and the signature service.
pub mod Controller
pub mod Processor
pub mod Secret
