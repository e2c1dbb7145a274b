-- ===== src/World.antt =====
-- The state that the services share: the tables of prisma/schema.prisma that the modelled code
-- reads or writes, the calls made to queues and providers, the measurements, and the clock.
-- Prisma, BullMQ and OpenTelemetry are not under the repository's sources: a table is the list of
-- its rows in the order of insertion, and a queue or a meter is the list of the calls made to it.
mod Tables
mod Effects
mod Queries
pub mod Rows
pub mod Audit
pub mod Metrics
pub use Tables.*
unfoldable pub use Effects.*
unfoldable pub use Queries.*
