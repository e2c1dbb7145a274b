-- ===== src/Providers/Adapters/MercadoPago/Client.antt =====
-- What src/modules/providers/adapters/mercadopago/mercadopago.provider.ts sends to the
-- package `mercadopago` and reads of its answers.
use pasarelapagos_backend.Prelude.{ℕ, String, Option, List, String_eq, ℕ_eq}
use pasarelapagos_backend.Prelude.Int.{ℤ}
use pasarelapagos_backend.Json.{Json}
use pasarelapagos_backend.Providers.Adapters.{Reply, Hundredths}

pub record Identification : Type 0 where
  pub type : String
  pub number : String

pub record PaymentBody : Type 0 where
  pub transaction_amount : Hundredths ℕ
  pub description : String
  pub payment_method_id : String
  pub payer_email : String
  pub payer_identification : Option Identification
  pub metadata : List (String × String)
  pub statement_descriptor : String
  pub callback_url : Option String
  pub date_of_expiration : Option String

pub record MpPayment : Type 0 where
  pub id : Option ℕ
  pub status : Option String
  pub status_detail : Option String
  -- `point_of_interaction?.transaction_data?.ticket_url`
  pub ticket_url : Option String
  pub raw : Json

-- `amount` is missing where the body is `{}`; `payment_id` is none where it is not a number.
pub record MpRefundRequest : Type 0 where
  pub payment_id : Option ℕ
  pub amount : Option (Hundredths ℤ)

pub record MpRefund : Type 0 where
  pub id : Option ℕ
  pub status : Option String
  pub raw : Json

-- What the client throws: `cause?.[0]?.code`, `status` and `message`.
pub record MpError : Type 0 where
  pub cause_code : Option Json
  pub status : Option ℕ
  pub message : String

pub record MpClient : Type 0 where
  pub create_payment : PaymentBody → (idempotency_key : String) → Reply MpError MpPayment
  pub create_refund : MpRefundRequest → Reply MpError MpRefund
  pub get_payment : Option ℕ → Reply MpError MpPayment
