-- ===== src/Providers/Adapters.antt =====
-- src/modules/providers/adapters/: what the adapters of the providers share. The clients of the
-- providers' APIs, node's `crypto`, `JSON.parse` and the breakers are parameters.
pub mod Stripe
pub mod MercadoPago
pub mod Pagarme
pub mod Conekta
pub mod Dlocal
pub mod Fake
pub mod Startup
pub mod Statuses
pub mod Failures
pub mod Signatures
use pasarelapagos_backend.Prelude.{
  ℕ, String, Bool, true, false, Option, none, some, List, [], ◌∷◌, ◌==◌, String_eq, leb, lookup,
  or_else, ◌<>◌, if◌then◌else◌,
}
use pasarelapagos_backend.Json.{Json, null, bool, num, str, arr, obj, object}
use pasarelapagos_backend.Errors.{
  Result, ok, err, Exception, PaymentErrorCode, error, payment, payment_exception,
}
use pasarelapagos_backend.Providers.Breaker.{Fired, ran, rejected, answer}

-- `config.get`, or `process.env`
abbrev pub Config : Type 0
Config = String → Option String

abbrev pub Headers : Type 0
Headers = List (String × String)

-- What node gives: the HMAC as hex, `JSON.parse` (none if it throws), `Number` of a text (none if it is
-- no number), `Date.now`, the ISO text of a time, and the case of texts.
pub record Node : Type 0 where
  pub hmac : (algorithm secret message : String) → String
  pub parse : String → Option Json
  pub number : String → Option ℕ
  pub now : ℕ
  pub iso_text : ℕ → String
  pub to_lower : String → String
  pub to_upper : String → String

-- How a call of an API ended: with its answer, or with an error that the client throws.
pub data Reply (E A : Type 0) : Type 0 where
  answered : A → Reply E A
  failed : E → Reply E A

-- The body of a `try` whose `catch` hands the error to a mapper that throws.
abbrev pub attempt : {E A B : Type 0} → (E → Exception) → (A → B) → Reply E A → Result B
attempt mapper f (answered a) = ok (f a)
attempt mapper f (failed e) = err (mapper e)

-- How the breaker of a key ends a call: it runs it, is open, or gives up after its time. The library
-- documents an `Error` with the code `EOPENBREAKER` for the second and one with `ETIMEDOUT` for the
-- third, whose message is an argument.
pub data Ending : Type 0 where
  runs opened : Ending
  late : (message : String) → Ending

abbrev fired : {A : Type 0} → Ending → Result A → Fired A
fired runs r = ran r
fired opened r = rejected "Error" "EOPENBREAKER" "Breaker is open"
fired (late message) r = rejected "Error" "ETIMEDOUT" message

-- `cb.execute(key, fn)`
abbrev pub guarded : {A : Type 0} → Ending → Result A → Result A
guarded e r = answer (fired e r)

-- An error of `axios`: `response.status` and `response.data`, if a response came, and `message`.
pub record HttpError : Type 0 where
  pub status : Option ℕ
  pub body : Option Json
  pub message : String

-- `error?.response?.status >= 500`
abbrev pub at_least_500 : Option ℕ → Bool
at_least_500 none = false
at_least_500 (some status) = leb 500 status

abbrev pub payment_error : PaymentErrorCode → Option String → Exception
payment_error code detail = payment (payment_exception code detail)

-- `{ ...entries, [k]: v }`
unfoldable pub assign : String → String → List (String × String) → List (String × String)
assign k v [] = (k, v) ∷ []
assign k v ((j, u) ∷ rest) = if j == k then (k, v) ∷ rest else (j, u) ∷ assign k v rest

-- `try { body = JSON.parse(raw.toString()) } catch { body = {} }`
abbrev pub body_of : Node → String → Json
body_of node raw = or_else (node.parse raw) (object [])

-- `map[s] ?? 'pending'`
unfoldable pub status_in : List (String × String) → String → String
unfolding lookup
status_in table s = or_else (lookup s table) "pending"

-- An amount of which the API takes hundredths: `Number(amountMinor) / 100`.
pub record Hundredths {ℓ} (A : Type ℓ) : Type ℓ where
  pub hundredths : A

infixl 5 ◌>>=◌
abbrev pub ◌>>=◌ : {A B : Type 0} → Result A → (A → Result B) → Result B
ok a >>= f = f a
err e >>= f = err e

-- Reading `body.k` throws a `TypeError` where `body` is null.
unfoldable pub readable : (k : String) → Json → Result Json
readable k null = err (error ("Cannot read properties of null (reading '" <> k <> "')"))
readable k (bool b) = ok (bool b)
readable k (num n) = ok (num n)
readable k (str s) = ok (str s)
readable k (arr items) = ok (arr items)
readable k (obj fields) = ok (obj fields)

-- A method of texts, called on a value that may be missing: a `TypeError` if it is no text.
abbrev pub on_text : (call : String) → (String → String) → Option Json → Result (Option String)
on_text call f none = ok none
on_text call f (some null) = ok none
on_text call f (some (bool b)) = err (error (call <> " is not a function"))
on_text call f (some (num n)) = err (error (call <> " is not a function"))
on_text call f (some (str s)) = ok (some (f s))
on_text call f (some (arr items)) = err (error (call <> " is not a function"))
on_text call f (some (obj fields)) = err (error (call <> " is not a function"))
