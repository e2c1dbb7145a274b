-- ===== src/Errors.antt =====
-- src/common/errors/payment-error.catalog.ts and payment.exception.ts, and the exceptions of
-- @nestjs/common that the program throws.
pub mod Filter
pub mod Laws
use pasarelapagos_backend.Prelude.{
  ℕ, String, Bool, true, false, Option, none, some, or_else, ◌≡◌, refl, ◌⊎◌, inl, inr,
}

pub data PaymentErrorCode : Type 0 where
  insufficient_funds exceeds_limit card_declined card_expired card_invalid_number card_invalid_cvv
        card_invalid_expiry card_not_supported fraud_suspected do_not_honor lost_card stolen_card
        blacklisted_user processing_error duplicate_transaction currency_not_supported
        amount_too_small amount_too_large voucher_expired document_invalid pix_key_not_found
        authentication_required authentication_failed provider_unavailable provider_timeout
        provider_unknown :
      PaymentErrorCode

pub record PaymentErrorMeta : Type 0 where
  pub code : PaymentErrorCode
  pub retryable : Bool
  pub http_status : ℕ
  pub message : String

abbrev meta : PaymentErrorCode → Bool → ℕ → String → PaymentErrorMeta
meta c r h m = record { code = c; retryable = r; http_status = h; message = m }

unfoldable pub payment_error_catalog : PaymentErrorCode → PaymentErrorMeta
payment_error_catalog insufficient_funds = meta insufficient_funds false 402 "Fondos insuficientes"
payment_error_catalog exceeds_limit = meta exceeds_limit false 402 "Excede el límite de la cuenta"
payment_error_catalog card_declined = meta card_declined false 402 "Tarjeta rechazada"
payment_error_catalog card_expired = meta card_expired false 402 "Tarjeta vencida"
payment_error_catalog card_invalid_number =
    meta card_invalid_number false 422 "Número de tarjeta inválido"
payment_error_catalog card_invalid_cvv = meta card_invalid_cvv false 422 "CVV inválido"
payment_error_catalog card_invalid_expiry =
    meta card_invalid_expiry false 422 "Fecha de expiración inválida"
payment_error_catalog card_not_supported =
    meta card_not_supported false 422 "Tipo de tarjeta no soportado"
payment_error_catalog fraud_suspected =
    meta fraud_suspected false 402 "Transacción sospechosa de fraude"
payment_error_catalog do_not_honor =
    meta do_not_honor false 402 "Tarjeta no habilitada para esta operación"
payment_error_catalog lost_card = meta lost_card false 402 "Tarjeta reportada como perdida"
payment_error_catalog stolen_card = meta stolen_card false 402 "Tarjeta reportada como robada"
payment_error_catalog blacklisted_user = meta blacklisted_user false 403 "Usuario en lista negra"
payment_error_catalog processing_error =
    meta processing_error true 502 "Error de procesamiento, reintentá"
payment_error_catalog duplicate_transaction =
    meta duplicate_transaction false 409 "Transacción duplicada"
payment_error_catalog currency_not_supported =
    meta currency_not_supported false 422 "Moneda no soportada por el provider"
payment_error_catalog amount_too_small = meta amount_too_small false 422 "Monto mínimo no alcanzado"
payment_error_catalog amount_too_large = meta amount_too_large false 422 "Monto máximo superado"
payment_error_catalog voucher_expired =
    meta voucher_expired false 410 "El voucher de pago ha expirado"
payment_error_catalog document_invalid =
    meta document_invalid false 422 "Documento de identidad inválido"
payment_error_catalog pix_key_not_found = meta pix_key_not_found false 422 "Clave PIX no encontrada"
payment_error_catalog authentication_required =
    meta authentication_required false 402 "Se requiere autenticación 3DS"
payment_error_catalog authentication_failed =
    meta authentication_failed false 402 "Autenticación 3DS fallida"
payment_error_catalog provider_unavailable =
    meta provider_unavailable true 503 "Provider temporalmente no disponible"
payment_error_catalog provider_timeout = meta provider_timeout true 504 "Timeout del provider"
payment_error_catalog provider_unknown =
    meta provider_unknown false 502 "Error desconocido del provider"

-- The body of the response that `PaymentException` hands to `HttpException`.
pub record ErrorBody : Type 0 where
  pub error : PaymentErrorCode
  pub message : String
  pub retryable : Bool

pub record PaymentException : Type 0 where
  pub response : ErrorBody
  pub status : ℕ
  pub code : PaymentErrorCode
  pub retryable : Bool

-- The constructor of `PaymentException`.
unfoldable pub payment_exception : PaymentErrorCode → Option String → PaymentException
unfolding payment_error_catalog
payment_exception code detail =
    let m = payment_error_catalog code in
    record {
      response = record {
        error = m.code;
        message = or_else detail m.message;
        retryable = m.retryable;
      };
      status = m.http_status;
      code = code;
      retryable = m.retryable;
    }

-- What a `throw` carries. All but `error` are `HttpException`s; `error` is any other `Error`.
pub data Exception : Type 0 where
  bad_request unauthorized forbidden not_found conflict unprocessable : String → Exception
  throttled : Exception
  payment : PaymentException → Exception
  error : String → Exception

-- `(err as Error).message`
abbrev pub message_of : Exception → String
message_of (bad_request m) = m
message_of (unauthorized m) = m
message_of (forbidden m) = m
message_of (not_found m) = m
message_of (conflict m) = m
message_of (unprocessable m) = m
message_of throttled = "ThrottlerException: Too Many Requests"
message_of (payment p) = p.response.message
message_of (error m) = m

-- A computation that may throw.
pub data Result (A : Type 0) : Type 0 where
  ok : A → Result A
  err : Exception → Result A

pub Result-cases :
    {A : Type 0} (r : Result A) → ((a : A) × (r ≡ ok a)) ⊎ ((e : Exception) × (r ≡ err e))
Result-cases (ok a) = inl (a, refl)
Result-cases (err e) = inr (e, refl)
