-- ===== src/Providers/Adapters/Pagarme/ErrorMapper.antt =====
-- src/modules/providers/adapters/pagarme/pagarme-error.mapper.ts
use pasarelapagos_backend.Prelude.{
  String, Option, none, List, [], ◌∷◌, lookup, or_else, String_eq, if◌then◌else◌,
}
use pasarelapagos_backend.Json.{Json}
use pasarelapagos_backend.Json.Reading.{then_member, then_first, text_or, text_of, shown}
use pasarelapagos_backend.Errors.{
  Exception, PaymentErrorCode, insufficient_funds, card_declined, card_expired, card_invalid_number,
  card_invalid_cvv, card_invalid_expiry, fraud_suspected, processing_error, pix_key_not_found,
  document_invalid, provider_unavailable, provider_unknown, payment_exception,
}
use pasarelapagos_backend.Providers.Adapters.{HttpError, payment_error, at_least_500}

abbrev pub code_map : List (String × PaymentErrorCode)
code_map =
    ("action_forbidden", card_declined)
    ∷ ("card_declined", card_declined)
    ∷ ("insufficient_funds", insufficient_funds)
    ∷ ("expired_card", card_expired)
    ∷ ("invalid_card_number", card_invalid_number)
    ∷ ("invalid_cvv", card_invalid_cvv)
    ∷ ("invalid_expiration_date", card_invalid_expiry)
    ∷ ("fraud_suspected", fraud_suspected)
    ∷ ("processing_error", processing_error)
    ∷ ("pix_key_not_found", pix_key_not_found)
    ∷ ("invalid_document", document_invalid)
    ∷ []

-- `errors[0]`
abbrev first_error : HttpError → Option Json
first_error e = then_first (then_member "errors" e.body)

unfoldable pub map_pagarme_error : HttpError → Exception
unfolding lookup payment_exception shown
map_pagarme_error e =
    if at_least_500 e.status
    then payment_error provider_unavailable none
    else payment_error
        (or_else (lookup (text_or "" (then_member "code" (first_error e))) code_map)
          provider_unknown)
        (text_of (then_member "message" (first_error e)))
