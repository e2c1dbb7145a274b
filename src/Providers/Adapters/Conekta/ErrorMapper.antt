-- ===== src/Providers/Adapters/Conekta/ErrorMapper.antt =====
-- src/modules/providers/adapters/conekta/conekta-error.mapper.ts
use pasarelapagos_backend.Prelude.{
  String, Option, none, some, List, [], ◌∷◌, lookup, or_else, or_opt, String_eq, if◌then◌else◌,
}
use pasarelapagos_backend.Json.{Json}
use pasarelapagos_backend.Json.Reading.{then_member, then_first, text_or, shown}
use pasarelapagos_backend.Errors.{
  Exception, PaymentErrorCode, insufficient_funds, card_declined, card_expired, card_invalid_number,
  fraud_suspected, voucher_expired, provider_unavailable, provider_unknown, payment_exception,
}
use pasarelapagos_backend.Providers.Adapters.{HttpError, payment_error, at_least_500}

abbrev pub code_map : List (String × PaymentErrorCode)
code_map =
    ("conekta.errors.processing.bank.insufficient_funds", insufficient_funds)
    ∷ ("conekta.errors.processing.bank.card_declined", card_declined)
    ∷ ("conekta.errors.processing.bank.expired_card", card_expired)
    ∷ ("conekta.errors.processing.bank.invalid_card", card_invalid_number)
    ∷ ("conekta.errors.processing.bank.suspected_fraud", fraud_suspected)
    ∷ ("conekta.errors.processing.charge.card_declined", card_declined)
    ∷ ("conekta.errors.processing.order.expired", voucher_expired)
    ∷ ("conekta.errors.request.validation.required", provider_unknown)
    ∷ []

-- `details[0]`
abbrev first_detail : HttpError → Option Json
first_detail e = then_first (then_member "details" e.body)

abbrev first_code : HttpError → String
first_code e = text_or "" (or_opt (then_member "code" (first_detail e)) (then_member "code" e.body))

unfoldable pub map_conekta_error : HttpError → Exception
unfolding lookup payment_exception shown
map_conekta_error e =
    if at_least_500 e.status
    then payment_error provider_unavailable none
    else payment_error (or_else (lookup (first_code e) code_map) provider_unknown)
        (some (text_or e.message (then_member "message" (first_detail e))))
