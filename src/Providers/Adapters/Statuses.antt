-- ===== src/Providers/Adapters/Statuses.antt =====
-- The statuses that the adapters make of the answers of the providers' APIs, which the types of
-- src/modules/providers/provider.interface.ts promise.
pub mod Started
pub mod Registered
pub mod Known
use pasarelapagos_backend.Prelude.{
  String, Bool, true, false, ◌&&◌, ℕ, Option, none, some, List, [], ◌∷◌, ◌≡◌, refl, inl, inr,
  String_eq, contains, lookup, All, lookup-All, Option-cases, Bool-cases, or_else, if◌then◌else◌,
}
use pasarelapagos_backend.Errors.{Result, ok, err, Exception}
use pasarelapagos_backend.Providers.{
  PaymentProvider, CreateChargeInput, ProviderChargeResult, RefundInput, ProviderRefundResult,
  WebhookEvent,
}
use pasarelapagos_backend.Providers.Adapters.{
  Config, Node, Ending, runs, opened, late, Reply, answered, failed, attempt, guarded, status_in,
  ◌>>=◌,
}
use pasarelapagos_backend.Providers.Adapters.Stripe
use pasarelapagos_backend.Providers.Adapters.MercadoPago
use pasarelapagos_backend.Providers.Adapters.Pagarme
use pasarelapagos_backend.Providers.Adapters.Conekta
use pasarelapagos_backend.Providers.Adapters.Dlocal

-- The type of `ProviderChargeResult.status`, and that of `ProviderRefundResult.status`.
abbrev pub charge_statuses : List String
charge_statuses = "pending" ∷ "authorized" ∷ "captured" ∷ "failed" ∷ "cancelled" ∷ "refunded" ∷ []

abbrev pub refund_statuses : List String
refund_statuses = "pending" ∷ "succeeded" ∷ "failed" ∷ []

abbrev pub IsChargeStatus : String → Type 0
IsChargeStatus s = contains charge_statuses s ≡ true

abbrev pub IsRefundStatus : String → Type 0
IsRefundStatus s = contains refund_statuses s ≡ true

-- Every result of a charge, a refund or a look-up has a status of its type.
pub record IsTyped (p : PaymentProvider) : Type 0 where
  pub charges :
      (input : CreateChargeInput) (r : ProviderChargeResult)
      → p.create_charge input ≡ ok r
      → IsChargeStatus r.status
  pub refunds :
      (input : RefundInput) (r : ProviderRefundResult)
      → p.refund input ≡ ok r
      → IsRefundStatus r.status
  pub retrieves :
      (id : String) (r : ProviderChargeResult) → p.retrieve id ≡ ok r → IsChargeStatus r.status

-- A table all of whose values are charge statuses.
abbrev pub is_table : List (String × String) → Bool
is_table [] = true
is_table ((k, v) ∷ rest) = contains charge_statuses v && is_table rest

is_table-All : (t : List (String × String)) → is_table t ≡ true → All (λ e. IsChargeStatus e.1) t
unfolding contains
is_table-All [] h = tt
is_table-All ((k, v) ∷ rest) h = elim (Bool-cases (contains charge_statuses v)) [
  | inl good ↦ (good, is_table-All rest (rw good at h))
  | inr bad ↦ let never : false ≡ true = rw bad at h in cc
]

pub status_in-IsChargeStatus :
    (table : List (String × String)) (s : String)
    → is_table table ≡ true
    → IsChargeStatus (status_in table s)
unfolding status_in contains
status_in-IsChargeStatus table s h = elim (Option-cases (lookup s table)) [
  | inl missing ↦ rw missing refl
  | inr (v, there) ↦ rw there (lookup-All IsChargeStatus s table (is_table-All table h) there)
]

-- A guarded call whose answers all have a property returns such answers only.
pub attempt_returns :
    {E A B : Type 0} (P : B → Type 0) (mapper : E → Exception) (f : A → B) (x : Ending)
    (reply : Reply E A) (b : B)
    → ((a : A) → P (f a))
    → guarded x (attempt mapper f reply) ≡ ok b
    → P b
attempt_returns P mapper f runs (answered a) b h e =
    let same : ok (f a) ≡ ok b = e in let eq : f a ≡ b = cc in rw eq at (h a)
attempt_returns P mapper f runs (failed x) b h e = cc
attempt_returns P mapper f opened reply b h e = cc
attempt_returns P mapper f (late m) reply b h e = cc

pub ok_returns : {B : Type 0} (P : B → Type 0) (a b : B) → P a → ok a ≡ ok b → P b
ok_returns P a b h e = let eq : a ≡ b = cc in rw eq at h

pub bind_returns :
    {A B : Type 0} (P : B → Type 0) (m : Result A) (f : A → Result B) (b : B)
    → ((a : A) → f a ≡ ok b → P b)
    → (m >>= f) ≡ ok b
    → P b
bind_returns P (ok a) f b h e = h a e
bind_returns P (err x) f b h e = cc

pub if_returns :
    {B : Type 0} (P : B → Type 0) (t : Bool) (x : Exception) (r : Result B) (b : B)
    → (r ≡ ok b → P b)
    → (if t then err x else r) ≡ ok b
    → P b
if_returns P true x r b h e = cc
if_returns P false x r b h e = h e
