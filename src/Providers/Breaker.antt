-- ===== src/Providers/Breaker.antt =====
-- src/modules/providers/circuit-breaker.service.ts: the `Map` of breakers. What a breaker of the
-- library `opossum` does when it fires is an argument.
use pasarelapagos_backend.Prelude.{
  ℕ, String, Bool, false, Option, none, some, List, [], ◌∷◌, ◌==◌, String_eq, find, or_else,
  if◌then◌else◌,
}
use pasarelapagos_backend.Errors.{
  Result, err, error, payment, payment_exception, provider_unavailable, provider_timeout,
}

pub record CircuitBreakerOptions : Type 0 where
  pub timeout : Option ℕ
  pub error_threshold : Option ℕ
  pub reset_timeout : Option ℕ
  pub volume_threshold : Option ℕ

-- A breaker with the settings that it was made with, and whether it is opened or half open.
pub record Breaker : Type 0 where
  pub key : String
  pub timeout : ℕ
  pub error_threshold : ℕ
  pub reset_timeout : ℕ
  pub volume_threshold : ℕ
  pub opened : Bool
  pub half_open : Bool

pub data Health : Type 0 where
  closed open_ half unknown : Health

abbrev pub is_breaker : String → Breaker → Bool
is_breaker key b = b.key == key

abbrev health : Option Breaker → Health
health none = unknown
health (some b) = if b.opened then open_ else if b.half_open then half else closed

-- `healthOf`
unfoldable pub health_of : String → List Breaker → Health
unfolding find
health_of key breakers = health (find (is_breaker key) breakers)

abbrev pub new_breaker : String → CircuitBreakerOptions → Breaker
new_breaker key opts = record {
  key = key;
  timeout = or_else opts.timeout 10000;
  error_threshold = or_else opts.error_threshold 50;
  reset_timeout = or_else opts.reset_timeout 30000;
  volume_threshold = or_else opts.volume_threshold 5;
  opened = false;
  half_open = false;
}

abbrev or_create :
    String → CircuitBreakerOptions → Option Breaker → List Breaker → Breaker × List Breaker
or_create key opts (some b) breakers = (b, breakers)
or_create key opts none breakers = (new_breaker key opts, new_breaker key opts ∷ breakers)

-- `getOrCreate`: a breaker that is there keeps its settings.
unfoldable pub get_or_create :
    String → CircuitBreakerOptions → List Breaker → Breaker × List Breaker
unfolding find
get_or_create key opts breakers = or_create key opts (find (is_breaker key) breakers) breakers

-- How `fire` ended: with the function's result, or with an error of the library's own.
pub data Fired (A : Type 0) : Type 0 where
  ran : Result A → Fired A
  rejected : (name code message : String) → Fired A

module _ {A : Type 0} where
  -- The `catch` of `execute`. None of the function's own errors has that code or that name.
  abbrev pub answer : Fired A → Result A
  answer (ran r) = r
  answer (rejected name code message) =
      if code == "EOPENBREAKER"
      then err (payment (payment_exception provider_unavailable none))
      else if name == "TimeoutError"
      then err (payment (payment_exception provider_timeout none))
      else err (error message)

  -- `execute`
  unfoldable pub execute :
      String
      → CircuitBreakerOptions
      → (Breaker → Fired A × Breaker)
      → List Breaker
      → Result A × List Breaker
  unfolding get_or_create
  execute key opts fire breakers =
      let (b, all) = get_or_create key opts breakers in
      let (fired, after) = fire b in (answer fired, put after all)
    where
      put : Breaker → List Breaker → List Breaker
      put b [] = []
      put b (c ∷ cs) = if c.key == b.key then b ∷ cs else c ∷ put b cs
