-- ===== src/Providers/Adapters/Stripe/ErrorMapper.antt =====
-- src/modules/providers/adapters/stripe/stripe-error.mapper.ts
use pasarelapagos_backend.Prelude.{String, Option, some, List, [], ◌∷◌, lookup, or_else, String_eq}
use pasarelapagos_backend.Errors.{
  Exception, PaymentErrorCode, insufficient_funds, card_declined, card_expired, card_invalid_number,
  card_invalid_cvv, card_invalid_expiry, card_not_supported, do_not_honor, lost_card, stolen_card,
  fraud_suspected, duplicate_transaction, currency_not_supported, amount_too_small,
  amount_too_large, authentication_required, authentication_failed, provider_unavailable,
  provider_unknown, payment_exception,
}
use pasarelapagos_backend.Providers.Adapters.{payment_error}

-- What the Stripe client throws, by its classes; `other` is any other value, as a text.
pub data StripeError : Type 0 where
  card_error : (code : Option String) → (message : String) → StripeError
  connection_error api_error rate_limit_error : (message : String) → StripeError
  authentication_error other : (message : String) → StripeError

abbrev pub card_code_map : List (String × PaymentErrorCode)
card_code_map =
    ("insufficient_funds", insufficient_funds)
    ∷ ("card_declined", card_declined)
    ∷ ("expired_card", card_expired)
    ∷ ("incorrect_number", card_invalid_number)
    ∷ ("invalid_number", card_invalid_number)
    ∷ ("incorrect_cvc", card_invalid_cvv)
    ∷ ("invalid_cvc", card_invalid_cvv)
    ∷ ("invalid_expiry_month", card_invalid_expiry)
    ∷ ("invalid_expiry_year", card_invalid_expiry)
    ∷ ("card_not_supported", card_not_supported)
    ∷ ("do_not_honor", do_not_honor)
    ∷ ("lost_card", lost_card)
    ∷ ("stolen_card", stolen_card)
    ∷ ("fraudulent", fraud_suspected)
    ∷ ("pickup_card", fraud_suspected)
    ∷ ("transaction_not_allowed", card_not_supported)
    ∷ ("duplicate_transaction", duplicate_transaction)
    ∷ ("currency_not_supported", currency_not_supported)
    ∷ ("amount_too_small", amount_too_small)
    ∷ ("amount_too_large", amount_too_large)
    ∷ ("authentication_required", authentication_required)
    ∷ ("payment_intent_authentication_failure", authentication_failed)
    ∷ []

abbrev pub card_code : Option String → PaymentErrorCode
card_code code = or_else (lookup (or_else code "") card_code_map) card_declined

unfoldable pub map_stripe_error : StripeError → Exception
unfolding lookup payment_exception
map_stripe_error (card_error code message) = payment_error (card_code code) (some message)
map_stripe_error (connection_error message) = payment_error provider_unavailable (some message)
map_stripe_error (api_error message) = payment_error provider_unavailable (some message)
map_stripe_error (rate_limit_error message) =
    payment_error provider_unavailable (some "Stripe rate limit")
map_stripe_error (authentication_error message) =
    payment_error provider_unknown (some "Stripe authentication error")
map_stripe_error (other message) = payment_error provider_unknown (some message)
