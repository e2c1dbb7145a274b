-- ===== src/World/Metrics.antt =====
-- src/modules/metrics/metrics.service.ts: the methods that the services call.
pub mod Gauge
use pasarelapagos_backend.Prelude.{ℕ, String, Bool, if◌then◌else◌, List, [], ◌∷◌, ◌==◌, String_eq}
use pasarelapagos_backend.Prelude.Int.{ℤ, pos, negsuc, ◌+ℤ◌}
use pasarelapagos_backend.World.Tables.{
  Sample, payments_total, payment_duration, webhook_total, webhook_lag, circuit_breaker_state,
  active_pending,
}
use pasarelapagos_backend.World.Effects.{Action, ◌>>◌}
use pasarelapagos_backend.World.Queries.{measure}

pub record PaymentAttrs : Type 0 where
  pub provider : String
  pub status : String
  pub country : String
  pub method : String
  pub duration_ms : ℕ

abbrev pub record_payment : PaymentAttrs → Action (Unit {0})
record_payment attrs = do
  measure (payments_total attrs.provider attrs.status attrs.country attrs.method)
  measure (payment_duration attrs.duration_ms attrs.provider attrs.country)

abbrev pub record_webhook : (provider status : String) (lag_ms : ℕ) → Action (Unit {0})
record_webhook provider status lag_ms = do
  measure (webhook_total provider status)
  measure (webhook_lag lag_ms provider)

abbrev pub set_circuit_breaker_open : String → Bool → Action (Unit {0})
set_circuit_breaker_open provider is_open =
    measure (circuit_breaker_state (if is_open then pos 1 else negsuc 0) provider)

abbrev pub increment_pending : String → Action (Unit {0})
increment_pending country = measure (active_pending (pos 1) country)

abbrev pub decrement_pending : String → Action (Unit {0})
decrement_pending country = measure (active_pending (negsuc 0) country)

-- What the up-down counter `active_payments_pending` shows for a country.
unfoldable pub pending_gauge : String → List Sample → ℤ
pending_gauge country [] = pos 0
pending_gauge country (active_pending n c ∷ ss) =
    if c == country then n +ℤ pending_gauge country ss else pending_gauge country ss
pending_gauge country (s ∷ ss) = pending_gauge country ss
