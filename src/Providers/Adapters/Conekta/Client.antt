-- ===== src/Providers/Adapters/Conekta/Client.antt =====
-- What src/modules/providers/adapters/conekta/conekta.provider.ts sends to the
-- `axios` client and reads of its answers.
use pasarelapagos_backend.Prelude.{ℕ, String, Option, List, String_eq}
use pasarelapagos_backend.Prelude.Int.{ℤ}
use pasarelapagos_backend.Json.{Json}
use pasarelapagos_backend.Providers.Adapters.{Reply, HttpError}

pub record LineItem : Type 0 where
  pub name : String
  pub unit_price : ℕ
  pub quantity : ℕ

pub data PaymentMethod : Type 0 where
  cash : (expires_at : ℕ) → PaymentMethod
  card : (payment_source_id : String) → PaymentMethod

pub record OrderBody : Type 0 where
  pub currency : String
  pub customer_name : String
  pub customer_email : String
  pub customer_phone : String
  pub line_items : List LineItem
  pub charges : List PaymentMethod
  pub metadata : List (String × String)

pub record RefundBody : Type 0 where
  pub reason : String
  pub amount : Option ℤ

pub record Charge : Type 0 where
  pub id : Option String
  pub status : Option String
  -- `payment_method?.reference`
  pub reference : Option String

-- `charges` is `charges?.data`.
pub record Order : Type 0 where
  pub id : String
  pub payment_status : Option String
  pub charges : List Charge
  pub raw : Json

pub record RefundAnswer : Type 0 where
  pub id : String
  pub raw : Json

pub record ConektaHttp : Type 0 where
  pub post_order : (path : String) → OrderBody → Reply HttpError Order
  pub post_refund : (path : String) → RefundBody → Reply HttpError RefundAnswer
  pub get_order : (path : String) → Reply HttpError Order
