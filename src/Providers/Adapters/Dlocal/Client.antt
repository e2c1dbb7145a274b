-- ===== src/Providers/Adapters/Dlocal/Client.antt =====
-- What src/modules/providers/adapters/dlocal/dlocal.provider.ts sends to the
-- `axios` client and reads of its answers.
use pasarelapagos_backend.Prelude.{ℕ, String, Option, String_eq}
use pasarelapagos_backend.Prelude.Int.{ℤ}
use pasarelapagos_backend.Json.{Json}
use pasarelapagos_backend.Providers.Adapters.{Headers, Reply, HttpError, Hundredths}

pub record PaymentBody : Type 0 where
  pub amount : Hundredths ℕ
  pub currency : String
  pub country : String
  pub payment_method_id : String
  pub payment_method_flow : String
  pub payer_name : String
  pub payer_email : String
  pub payer_document : String
  pub order_id : String
  pub description : String
  pub callback_url : String
  pub notification_url : String

pub record RefundBody : Type 0 where
  pub payment_id : String
  pub notification_url : String
  pub amount : Option (Hundredths ℤ)

pub record PaymentAnswer : Type 0 where
  pub id : String
  pub status : Option String
  pub redirect_url : Option String
  pub raw : Json

pub record RefundAnswer : Type 0 where
  pub id : String
  pub status : Option String
  pub raw : Json

-- The two `text` fields are `JSON.stringify` of the bodies.
pub record DlocalHttp : Type 0 where
  pub payment_text : PaymentBody → String
  pub refund_text : RefundBody → String
  pub post_payment : (path : String) → Headers → PaymentBody → Reply HttpError PaymentAnswer
  pub post_refund : (path : String) → Headers → RefundBody → Reply HttpError RefundAnswer
  pub get_payment : (path : String) → Headers → Reply HttpError PaymentAnswer
