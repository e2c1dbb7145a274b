-- ===== src/Providers/Adapters/MercadoPago/ErrorMapper.antt =====
-- src/modules/providers/adapters/mercadopago/mercadopago-error.mapper.ts
use pasarelapagos_backend.Prelude.{
  ℕ, String, Bool, false, Option, none, some, List, [], ◌∷◌, lookup, or_else, ◌==◌, ℕ_eq, String_eq,
  ◌||◌, if◌then◌else◌,
}
use pasarelapagos_backend.Errors.{
  Exception, PaymentErrorCode, insufficient_funds, card_invalid_number, card_invalid_cvv,
  card_invalid_expiry, card_declined, duplicate_transaction, fraud_suspected, do_not_honor,
  exceeds_limit, authentication_required, processing_error, voucher_expired, provider_unavailable,
  payment_exception,
}
use pasarelapagos_backend.Providers.Adapters.{payment_error, at_least_500}

abbrev pub status_detail_map : List (String × PaymentErrorCode)
status_detail_map =
    ("cc_rejected_insufficient_amount", insufficient_funds)
    ∷ ("cc_rejected_bad_filled_card_number", card_invalid_number)
    ∷ ("cc_rejected_bad_filled_security_code", card_invalid_cvv)
    ∷ ("cc_rejected_bad_filled_date", card_invalid_expiry)
    ∷ ("cc_rejected_card_disabled", card_declined)
    ∷ ("cc_rejected_duplicated_payment", duplicate_transaction)
    ∷ ("cc_rejected_high_risk", fraud_suspected)
    ∷ ("cc_rejected_max_attempts", card_declined)
    ∷ ("cc_rejected_other_reason", card_declined)
    ∷ ("cc_rejected_call_for_authorize", do_not_honor)
    ∷ ("cc_amount_rate_limit_exceeded", exceeds_limit)
    ∷ ("pending_waiting_payment", authentication_required)
    ∷ ("pending_review_manual", processing_error)
    ∷ ("expired", voucher_expired)
    ∷ []

abbrev is_unauthorized : Option ℕ → Bool
is_unauthorized none = false
is_unauthorized (some http_status) = http_status == 401 || http_status == 403

unfoldable pub map_mercadopago_error : String → Option ℕ → Exception
unfolding lookup payment_exception
map_mercadopago_error status_detail http_status =
    if is_unauthorized http_status
    then payment_error provider_unavailable (some "Credenciales de MercadoPago inválidas")
    else if at_least_500 http_status
    then payment_error provider_unavailable none
    else payment_error (or_else (lookup status_detail status_detail_map) card_declined)
        (some status_detail)
