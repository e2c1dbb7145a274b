-- ===== src/Providers/Adapters/Pagarme/Client.antt =====
-- What src/modules/providers/adapters/pagarme/pagarme.provider.ts sends to the
-- `axios` client and reads of its answers.
use pasarelapagos_backend.Prelude.{ℕ, String, Bool, Option, List, String_eq}
use pasarelapagos_backend.Prelude.Int.{ℤ}
use pasarelapagos_backend.Json.{Json}
use pasarelapagos_backend.Providers.Adapters.{Reply, HttpError}

pub record Item : Type 0 where
  pub amount : ℕ
  pub description : String
  pub quantity : ℕ
  pub code : String

pub record Customer : Type 0 where
  pub name : String
  pub email : String
  pub type : String
  pub document : String
  pub document_type : String

pub data PaymentMethod : Type 0 where
  pix : (expires_in : ℕ) → (additional_information : List (String × String)) → PaymentMethod
  credit_card : (recurrence : Bool) → (installments : ℕ) → (descriptor : String) → PaymentMethod

pub record OrderBody : Type 0 where
  pub items : List Item
  pub customer : Customer
  pub payments : List PaymentMethod
  pub code : String

pub record Transaction : Type 0 where
  pub qr_code_url : Option String
  pub qr_code : Option String

pub record Charge : Type 0 where
  pub id : Option String
  pub status : Option String
  pub last_transaction : Option Transaction

pub record Order : Type 0 where
  pub id : String
  pub status : String
  pub charges : List Charge
  pub raw : Json

-- The answer about one charge.
pub record ChargeAnswer : Type 0 where
  pub id : String
  pub status : String
  pub raw : Json

pub record PagarmeHttp : Type 0 where
  pub post_order : (path : String) → OrderBody → Reply HttpError Order
  pub post_cancel : (path : String) → (amount : Option ℤ) → Reply HttpError ChargeAnswer
  pub get_charge : (path : String) → Reply HttpError ChargeAnswer
