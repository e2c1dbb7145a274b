-- ===== src/Payments/Create/Methods.antt =====
-- The payment methods of a request: the DTO checks them against Prisma's enum, in upper case, and
-- `create` looks them up in a table whose keys are in lower case.
use pasarelapagos_backend.Prelude.{
  String, true, Option, none, some, ◌≡◌, refl, arith, find, List, [], ◌∷◌, String_eq, eq_refl,
  contains, All-contains, ◌<>◌,
}
use pasarelapagos_backend.Prelude.Int.{pos, ◌+ℤ◌}
use pasarelapagos_backend.Context.{OrgContext, Env}
use pasarelapagos_backend.Errors.{Result, ok, err, Exception, bad_request}
use pasarelapagos_backend.Providers.{PaymentProvider}
use pasarelapagos_backend.Providers.Registry
use pasarelapagos_backend.World.{World, active_pending}
use pasarelapagos_backend.World.Metrics.{pending_gauge}
use pasarelapagos_backend.World.Metrics.Gauge.{pending_gauge-append}
use pasarelapagos_backend.World.Rows.{HasSameTables}
use pasarelapagos_backend.Payments.Create.{
  CreatePaymentDto, PaymentView, create, create_new, required_key, replays, to_prisma_method,
}
use pasarelapagos_backend.Payments.Create.Outcome.{
  Outcome, unrouted, rejected, charged, broke, create_new-Outcome,
}

-- The texts of Prisma's enum `PaymentMethodKind`, which `@IsEnum(PaymentMethodKind)` of the DTO
-- lets through.
abbrev pub enum_texts : List String
enum_texts = "CARD" ∷ "WALLET" ∷ "BANK_TRANSFER" ∷ "CASH_VOUCHER" ∷ "PIX" ∷ "QR" ∷ []

to_prisma_method-enum :
    (method : String)
    → contains enum_texts method ≡ true
    → to_prisma_method method ≡ err (bad_request ("Método de pago inválido: " <> method))
unfolding to_prisma_method
to_prisma_method-enum method h =
    All-contains (λ m. to_prisma_method m ≡ err (bad_request ("Método de pago inválido: " <> m)))
      enum_texts method (refl, (refl, (refl, (refl, (refl, (refl, tt)))))) h

-- A request whose method passes the DTO's check and whose key is new creates no payment: `create`
-- throws, writes to no table and asks no provider.
pub enum_method_fails :
    (env : Env) (dto : CreatePaymentDto) (ctx : OrgContext) (k : Option String) (key : String)
    (w w' : World) (r : Result PaymentView)
    → contains enum_texts dto.method ≡ true
    → required_key k ≡ some key
    → find (replays ctx.organization_id key) w.payments ≡ none
    → create env dto k ctx w ≡ (r, w')
    → ((x : Exception) × (r ≡ err x)) × HasSameTables w w' × (w'.calls ≡ w.calls)
unfolding create
enum_method_fails env dto ctx k key w w' r h a b e =
    go (create_new-Outcome env dto key ctx w.now w w' r (ground arith))
  where
    go :
        Outcome env dto key ctx w.now w w' r
        → ((x : Exception) × (r ≡ err x)) × HasSameTables w w' × (w'.calls ≡ w.calls)
    go (unrouted x c threw same) = ((x, threw), ground arith, ground arith)
    go (rejected x threw same calls g why m) = ((x, threw), same, calls)
    go (charged provider p result new c rows d calls g m) =
        absurd (cc (new.known, to_prisma_method-enum dto.method h))
    go (broke provider p x new c rows d calls g m) =
        absurd (cc (new.known, to_prisma_method-enum dto.method h))

-- A method that `create` does not know, in a request with a new key that a provider serves, raises
-- the gauge of pending payments of the country by one, though no payment is stored.
pub unknown_method_leaks :
    (env : Env) (dto : CreatePaymentDto) (ctx : OrgContext) (k : Option String) (key : String)
    (provider : PaymentProvider) (x : Exception) (w : World)
    → required_key k ≡ some key
    → find (replays ctx.organization_id key) w.payments ≡ none
    → Registry.select_for dto.country dto.currency env.registry ≡ ok provider
    → to_prisma_method dto.method ≡ err x
    → let (r, w') = create env dto k ctx w in
      (r ≡ err x)
      × (w'.payments ≡ w.payments)
      × (pending_gauge dto.country w'.samples ≡ pending_gauge dto.country w.samples +ℤ pos 1)
unfolding create create_new
unknown_method_leaks env dto ctx k key provider x w a b routed bad =
    rw (a, b, routed, bad)
      (
        ground arith,
        ground arith,
        ground (
          arith,
          pending_gauge-append dto.country w.samples (active_pending (pos 1) dto.country),
          eq_refl dto.country,
        ),
      )
