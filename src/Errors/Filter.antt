-- ===== src/Errors/Filter.antt =====
-- src/common/filters/all-exceptions.filter.ts: the response to a request that failed.
use pasarelapagos_backend.Prelude.{
  ℕ, String, Bool, ◌&&◌, Option, none, some, or_else, or_opt, leb, if◌then◌else◌,
}
use pasarelapagos_backend.Errors.{
  Exception, bad_request, unauthorized, forbidden, not_found, conflict, unprocessable, throttled,
  payment, error, message_of, ErrorBody,
}

-- `exception.getResponse()` of @nestjs/common: a text, or an object with a message.
pub data HttpResponse : Type 0 where
  text : String → HttpResponse
  standard : (status : ℕ) (message : String) → HttpResponse
  payment_body : ErrorBody → HttpResponse

-- `exception instanceof HttpException ? exception.getStatus() : 500`
unfoldable pub status_of : Exception → ℕ
status_of (bad_request m) = 400
status_of (unauthorized m) = 401
status_of (forbidden m) = 403
status_of (not_found m) = 404
status_of (conflict m) = 409
status_of (unprocessable m) = 422
status_of throttled = 429
status_of (payment p) = p.status
status_of (error m) = 500

unfoldable pub response_of : Exception → Option HttpResponse
response_of (bad_request m) = some (standard 400 m)
response_of (unauthorized m) = some (standard 401 m)
response_of (forbidden m) = some (standard 403 m)
response_of (not_found m) = some (standard 404 m)
response_of (conflict m) = some (standard 409 m)
response_of (unprocessable m) = some (standard 422 m)
response_of throttled = some (text (message_of throttled))
response_of (payment p) = some (payment_body p.response)
response_of (error m) = none

-- The text of a response, or the `message` of its object.
abbrev pub client_text : Option HttpResponse → Option String
client_text none = none
client_text (some (text m)) = some m
client_text (some (standard s m)) = some m
client_text (some (payment_body b)) = some b.message

-- `detail`, which only a development server sends
abbrev detail_of : Option HttpResponse → Option HttpResponse
detail_of (some (text m)) = none
detail_of r = r

-- What of the request the filter reads.
pub record FailedRequest : Type 0 where
  pub url : String
  pub trace_header : Option String
  pub id : Option String

pub record FilterReply : Type 0 where
  pub status_code : ℕ
  pub error : String
  pub detail : Option HttpResponse
  pub path : String
  pub trace_id : Option String
  -- whether the exception was written to the log
  pub logged : Bool

abbrev pub internal : String
internal = "Error interno del servidor"

unfoldable pub catch_all : Bool → Exception → FailedRequest → FilterReply
unfolding status_of response_of
catch_all is_prod e req =
    let status = status_of e in
    let response = response_of e in
    record {
      status_code = status;
      error =
          if is_prod && leb 500 status then internal else or_else (client_text response) internal;
      detail = if is_prod then none else detail_of response;
      path = req.url;
      trace_id = or_opt req.trace_header req.id;
      logged = leb 500 status;
    }
