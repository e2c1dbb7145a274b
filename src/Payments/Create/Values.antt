-- ===== src/Payments/Create/Values.antt =====
-- src/modules/payments/dto/create-payment.dto.ts, and the tables and the view of a payment in
-- src/modules/payments/payments.service.ts.
use pasarelapagos_backend.Prelude.{
  ℕ, String, Option, none, some, List, [], ◌∷◌, String_eq, ◌<>◌, lookup, or_else, decimal,
}
use pasarelapagos_backend.Errors.{Result, ok, err, bad_request}
use pasarelapagos_backend.Payments.Machine.{
  PaymentStatus, pending, authorized, captured, failed, cancelled,
}
use pasarelapagos_backend.World.{
  Payment, PaymentMethodKind, card, wallet, bank_transfer, cash_voucher, pix, qr,
}

-- dto/create-payment.dto.ts: `amountMinor` is an integer of at least 1
pub record CreatePaymentDto : Type 0 where
  pub amount_minor : ℕ
  pub currency : String
  pub country : String
  pub method : String
  pub customer_id : Option String
  pub email : Option String
  pub description : Option String
  pub return_url : Option String
  pub metadata : Option (List (String × String))

-- `{ ...payment, amountMinor: payment.amountMinor.toString() }`
pub record PaymentView : Type 0 where
  pub payment : Payment
  pub amount_minor : String

unfoldable pub serialize : Payment → PaymentView
serialize p = record { payment = p; amount_minor = decimal p.amount_minor }

abbrev pub method_map : List (String × PaymentMethodKind)
method_map =
    ("card", card)
    ∷ ("wallet", wallet)
    ∷ ("bank_transfer", bank_transfer)
    ∷ ("cash_voucher", cash_voucher)
    ∷ ("pix", pix)
    ∷ ("qr", qr)
    ∷ []

abbrev mapped_or_throw : String → Option PaymentMethodKind → Result PaymentMethodKind
mapped_or_throw method none = err (bad_request ("Método de pago inválido: " <> method))
mapped_or_throw method (some kind) = ok kind

unfoldable pub to_prisma_method : String → Result PaymentMethodKind
unfolding lookup
to_prisma_method method = mapped_or_throw method (lookup method method_map)

abbrev pub provider_status_map : List (String × PaymentStatus)
provider_status_map =
    ("authorized", authorized)
    ∷ ("captured", captured)
    ∷ ("failed", failed)
    ∷ ("cancelled", cancelled)
    ∷ ("pending", pending)
    ∷ []

unfoldable pub map_provider_status : String → PaymentStatus
unfolding lookup
map_provider_status status = or_else (lookup status provider_status_map) pending
