-- ===== src/World/Queries.antt =====
-- The Prisma calls of the services on the shared tables, with the constraints of
-- prisma/schema.prisma: primary keys, and `@@unique([tenantId, idempotencyKey])`.
use pasarelapagos_backend.Prelude.{
  ℕ, ◌+◌, String, Bool, none, some, List, [], ◌∷◌, ◌++◌, ◌&&◌, ◌||◌, ◌==◌, String_eq, find, any,
  if◌then◌else◌,
}
use pasarelapagos_backend.Payments.Machine.{PaymentStatus}
use pasarelapagos_backend.Errors.{ok, err, error}
use pasarelapagos_backend.World.Tables.{Payment, PaymentEvent, Refund, ProviderCall, Sample}
use pasarelapagos_backend.World.Effects.{Action}

-- The number of the next id that Prisma mints.
abbrev pub mint : Action ℕ
mint w = (ok w.minted, record w { minted = w.minted + 1 })

abbrev pub unique_failed : String
unique_failed = "Unique constraint failed"

abbrev pub not_there : String
not_there = "Record to update not found"

-- Two rows that the constraints of `Payment` keep apart.
abbrev pub clashes : Payment → Payment → Bool
clashes p q = p.id == q.id || (p.tenant_id == q.tenant_id && p.idempotency_key == q.idempotency_key)

-- `tx.payment.create`
unfoldable pub create_payment : Payment → Action Payment
unfolding any
create_payment p w =
    if any (clashes p) w.payments
    then (err (error unique_failed), w)
    else (ok p, record w { payments = w.payments ++ p ∷ [] })

abbrev pub has_id : String → Payment → Bool
has_id id p = p.id == id

unfoldable pub update_row : String → (Payment → Payment) → List Payment → List Payment
update_row id f [] = []
update_row id f (p ∷ ps) = if p.id == id then f p ∷ ps else p ∷ update_row id f ps

-- `tx.payment.update({ where: { id }, data })`, with the row after the update
unfoldable pub update_payment : String → (Payment → Payment) → Action Payment
unfolding find update_row
update_payment id f w = elim (find (has_id id) w.payments) [
  | none ↦ (err (error not_there), w)
  | some p ↦ (ok (f p), record w { payments = update_row id f w.payments })
]

-- `data: { status: newStatus }`
abbrev pub set_status : PaymentStatus → Payment → Payment
set_status s p = record p { status = s }

-- `tx.paymentEvent.create`
abbrev pub create_event : PaymentEvent → Action (Unit {0})
create_event e w = (ok tt, record w { events = w.events ++ e ∷ [] })

-- `tx.refund.create`
abbrev pub create_refund : Refund → Action Refund
create_refund r w = (ok r, record w { refunds = w.refunds ++ r ∷ [] })

-- `this.metrics…`: one call on one instrument
abbrev pub measure : Sample → Action (Unit {0})
measure s w = (ok tt, record w { samples = w.samples ++ s ∷ [] })

-- A request to a provider's API, which takes `ms` milliseconds.
abbrev pub call_provider : ProviderCall → ℕ → Action (Unit {0})
call_provider c ms w = (ok tt, record w { calls = w.calls ++ c ∷ []; now = w.now + ms })
