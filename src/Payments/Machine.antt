-- ===== src/Payments/Machine.antt =====
-- src/modules/payments/payment-state.machine.ts
pub mod Diagram
use pasarelapagos_backend.Prelude.{
  String, Bool, true, false, List, [], ◌∷◌, ◌≡◌, ◌↔◌, arith, Comparable, ◌==◌, ℕ_eq, ℕ, contains,
  ◌<>◌, if◌then◌else◌,
}
use pasarelapagos_backend.Errors.{Result, ok, err, bad_request}

pub data PaymentStatus : Type 0 where
  pending authorized captured failed cancelled refunded partially_refunded : PaymentStatus

-- A number for each status, by which two are compared.
abbrev status_number : PaymentStatus → ℕ
status_number pending = 0
status_number authorized = 1
status_number captured = 2
status_number failed = 3
status_number cancelled = 4
status_number refunded = 5
status_number partially_refunded = 6

abbrev pub status_eq : PaymentStatus → PaymentStatus → Bool
status_eq s t = status_number s == status_number t

pub status_eq_iff : (s t : PaymentStatus) → (status_eq s t ≡ true) ↔ (s ≡ t)
status_eq_iff s t = ground arith

instance abbrev pub PaymentStatus_eq : Comparable PaymentStatus
PaymentStatus_eq = record {
  same = status_eq;
  same-sound = λ s t h. (status_eq_iff s t).0 h;
  same-complete = λ s t p. (status_eq_iff s t).1 p;
}

-- The enum's text, as a message shows it.
abbrev pub status_text : PaymentStatus → String
status_text pending = "PENDING"
status_text authorized = "AUTHORIZED"
status_text captured = "CAPTURED"
status_text failed = "FAILED"
status_text cancelled = "CANCELLED"
status_text refunded = "REFUNDED"
status_text partially_refunded = "PARTIALLY_REFUNDED"

unfoldable pub valid_transitions : PaymentStatus → List PaymentStatus
valid_transitions pending = authorized ∷ captured ∷ failed ∷ cancelled ∷ []
valid_transitions authorized = captured ∷ failed ∷ cancelled ∷ []
valid_transitions captured = refunded ∷ partially_refunded ∷ []
valid_transitions partially_refunded = refunded ∷ []
valid_transitions failed = []
valid_transitions cancelled = []
valid_transitions refunded = []

abbrev invalid_transition : PaymentStatus → PaymentStatus → String
invalid_transition from to =
    "Transición de estado inválida: " <> status_text from <> " → " <> status_text to

unfoldable pub assert_valid_transition : PaymentStatus → PaymentStatus → Result (Unit {0})
unfolding valid_transitions contains
assert_valid_transition from to =
    if from == to
    then ok tt
    else if contains (valid_transitions from) to
    then ok tt
    else err (bad_request (invalid_transition from to))

abbrev is_empty : List PaymentStatus → Bool
is_empty [] = true
is_empty (s ∷ ss) = false

unfoldable pub is_terminal : PaymentStatus → Bool
unfolding valid_transitions
is_terminal status = is_empty (valid_transitions status)
