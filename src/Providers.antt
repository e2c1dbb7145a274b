-- ===== src/Providers.antt =====
-- src/modules/providers/provider.interface.ts: what every payment provider implements.
-- A `status` is a text here: the types name its values, and what a webhook's body holds is not
-- checked against them. What is `async` is a result or an exception.
pub mod Registry
pub mod Breaker
pub mod Routing
pub mod Adapters
use pasarelapagos_backend.Prelude.{ℕ, String, Option, List}
use pasarelapagos_backend.Prelude.Int.{ℤ}
use pasarelapagos_backend.Json.{Json}
use pasarelapagos_backend.Errors.{Result}

pub record ChargeCustomer : Type 0 where
  pub id : String
  pub email : Option String
  pub document_id : Option String

pub record CreateChargeInput : Type 0 where
  pub amount_minor : ℕ
  pub currency : String
  pub country : String
  pub customer : ChargeCustomer
  pub description : Option String
  pub method : String
  pub metadata : Option (List (String × String))
  pub idempotency_key : String
  pub return_url : Option String

pub record ProviderChargeResult : Type 0 where
  pub external_id : String
  pub status : String
  pub redirect_url : Option String
  pub raw : Json

pub record RefundInput : Type 0 where
  pub external_id : String
  pub amount_minor : Option ℤ
  pub reason : Option String

pub record ProviderRefundResult : Type 0 where
  pub external_refund_id : String
  pub status : String
  pub raw : Json

pub record WebhookEvent : Type 0 where
  pub provider_id : String
  pub event_type : String
  pub external_id : String
  pub status : String
  pub raw : Json

pub record PaymentProvider : Type 0 where
  pub id : String
  pub countries : List String
  pub currencies : List String
  pub create_charge : CreateChargeInput → Result ProviderChargeResult
  pub refund : RefundInput → Result ProviderRefundResult
  pub retrieve : String → Result ProviderChargeResult
  pub verify_webhook : String → List (String × String) → Result WebhookEvent
