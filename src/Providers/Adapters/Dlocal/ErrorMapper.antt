-- ===== src/Providers/Adapters/Dlocal/ErrorMapper.antt =====
-- src/modules/providers/adapters/dlocal/dlocal-error.mapper.ts
use pasarelapagos_backend.Prelude.{
  String, none, List, [], ◌∷◌, lookup, or_else, String_eq, if◌then◌else◌,
}
use pasarelapagos_backend.Json.Reading.{then_member, text_or, text_of, shown}
use pasarelapagos_backend.Errors.{
  Exception, PaymentErrorCode, insufficient_funds, card_declined, card_expired, card_invalid_number,
  card_invalid_cvv, authentication_required, do_not_honor, fraud_suspected, document_invalid,
  blacklisted_user, processing_error, provider_unavailable, provider_unknown, payment_exception,
}
use pasarelapagos_backend.Providers.Adapters.{HttpError, payment_error, at_least_500}

-- The keys of an object are texts, those that are written as numbers too.
abbrev pub code_map : List (String × PaymentErrorCode)
code_map =
    ("300", card_declined)
    ∷ ("301", insufficient_funds)
    ∷ ("302", card_declined)
    ∷ ("303", card_invalid_cvv)
    ∷ ("304", card_invalid_number)
    ∷ ("305", card_expired)
    ∷ ("306", authentication_required)
    ∷ ("307", do_not_honor)
    ∷ ("309", fraud_suspected)
    ∷ ("401", document_invalid)
    ∷ ("402", blacklisted_user)
    ∷ ("500", processing_error)
    ∷ []

unfoldable pub map_dlocal_error : HttpError → Exception
unfolding lookup payment_exception shown
map_dlocal_error e =
    if at_least_500 e.status
    then payment_error provider_unavailable none
    else payment_error
        (or_else (lookup (text_or "500" (then_member "code" e.body)) code_map) provider_unknown)
        (text_of (then_member "message" e.body))
