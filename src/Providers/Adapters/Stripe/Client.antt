-- ===== src/Providers/Adapters/Stripe/Client.antt =====
-- What src/modules/providers/adapters/stripe/stripe.provider.ts sends to the
-- package `stripe` and reads of its answers.
use pasarelapagos_backend.Prelude.{ℕ, String, Bool, Option, List, String_eq}
use pasarelapagos_backend.Prelude.Int.{ℤ}
use pasarelapagos_backend.Json.{Json}
use pasarelapagos_backend.Providers.Adapters.{Reply}
use pasarelapagos_backend.Providers.Adapters.Stripe.ErrorMapper.{StripeError}

-- What is added to a payment intent if there is a return URL.
pub record Confirmation : Type 0 where
  pub confirm : Bool
  pub return_url : String
  pub automatic_payment_methods_enabled : Bool

pub record IntentParams : Type 0 where
  pub amount : ℕ
  pub currency : String
  pub capture_method : String
  pub description : Option String
  pub metadata : List (String × String)
  pub receipt_email : Option String
  pub confirmation : Option Confirmation

pub record PaymentIntent : Type 0 where
  pub id : String
  pub status : String
  -- `next_action?.redirect_to_url?.url`
  pub redirect_url : Option String
  pub raw : Json

pub record RefundParams : Type 0 where
  pub payment_intent : String
  pub amount : Option ℤ
  pub reason : Option String

pub record StripeRefund : Type 0 where
  pub id : Option String
  pub status : Option String
  pub raw : Json

-- An event whose signature was checked; `object` is `data?.object`.
pub record StripeEvent : Type 0 where
  pub type : String
  pub object : Option Json
  pub raw : Json

pub record StripeInstance : Type 0 where
  pub create_intent : IntentParams → (idempotency_key : String) → Reply StripeError PaymentIntent
  pub capture_intent : String → Reply StripeError PaymentIntent
  pub retrieve_intent : String → Reply StripeError PaymentIntent
  pub create_refund : RefundParams → Reply StripeError StripeRefund
  pub construct_event : (raw sig secret : String) → Reply String StripeEvent
