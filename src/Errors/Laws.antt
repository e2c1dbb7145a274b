-- ===== src/Errors/Laws.antt =====
-- The catalogue of payment errors, and what a client learns of a failure.
use pasarelapagos_backend.Prelude.{String, true, Option, none, ◌≡◌, refl, ◌↔◌, ◌⊎◌, ◌≤◌, ◌<◌, arith}
use pasarelapagos_backend.Errors.{
  PaymentErrorCode, processing_error, provider_unavailable, provider_timeout, payment_error_catalog,
  payment_exception, Exception,
}
use pasarelapagos_backend.Errors.Filter.{FailedRequest, internal, catch_all, status_of}

-- Every row of the catalogue carries its own code, and its HTTP status is that of an error, from
-- 400 to 599.
pub catalog_row :
    (c : PaymentErrorCode)
    → ((payment_error_catalog c).code ≡ c)
      × (400 ≤ (payment_error_catalog c).http_status)
      × ((payment_error_catalog c).http_status < 600)
unfolding payment_error_catalog
catalog_row PaymentErrorCode.insufficient_funds = (refl, omega arith, omega arith)
catalog_row c = (refl, omega arith, omega arith)

-- A payment exception is marked retryable exactly if its code is a processing error, or the
-- provider was unavailable or timed out, whatever detail it is given.
pub retryable_iff :
    (c : PaymentErrorCode) (d : Option String)
    → ((payment_exception c d).retryable ≡ true)
      ↔ ((c ≡ processing_error) ⊎ ((c ≡ provider_unavailable) ⊎ (c ≡ provider_timeout)))
unfolding payment_exception
retryable_iff c d = ground arith

-- In production the client of a request that failed with a server error gets the exception's status
-- with the fixed text and no detail, and the failure is logged.
pub catch_all-server_error :
    (e : Exception) (req : FailedRequest)
    → 500 ≤ status_of e
    → ((catch_all true e req).status_code ≡ status_of e)
      × ((catch_all true e req).error ≡ internal)
      × ((catch_all true e req).detail ≡ none)
      × ((catch_all true e req).logged ≡ true)
unfolding catch_all
catch_all-server_error e req h = ground arith
