-- ===== src/World/Metrics/Gauge.antt =====
-- How the gauge of pending payments moves with one measurement.
use pasarelapagos_backend.Prelude.{
  ℕ, String, List, [], ◌∷◌, ◌++◌, ◌≡◌, ◌==◌, String_eq, Bool-cases, inl, inr, if◌then◌else◌,
}
use pasarelapagos_backend.Prelude.Int.{ℤ, pos, negsuc, ◌+ℤ◌, int_laws}
use pasarelapagos_backend.World.Tables.{Sample, payments_total, payment_duration, active_pending}
use pasarelapagos_backend.World.Metrics.{pending_gauge}

-- What one measurement adds to a country's gauge.
abbrev pub change : String → Sample → ℤ
change country (active_pending n c) = if c == country then n else pos 0
change country s = pos 0

pub pending_gauge-append :
    (country : String) (ss : List Sample) (s : Sample)
    → pending_gauge country (ss ++ s ∷ []) ≡ pending_gauge country ss +ℤ change country s
unfolding pending_gauge
pending_gauge-append country [] (active_pending n c) = elim (Bool-cases (c == country)) [
  | inl e ↦ rw e (omega int_laws)
  | inr e ↦ rw e (omega int_laws)
]
pending_gauge-append country [] s = omega int_laws
pending_gauge-append country (active_pending n c ∷ ss) s = elim (Bool-cases (c == country)) [
  | inl e ↦ rw (e, pending_gauge-append country ss s) (omega int_laws)
  | inr e ↦ rw e (pending_gauge-append country ss s)
]
pending_gauge-append country (r ∷ ss) s = pending_gauge-append country ss s

-- A payment that was settled is counted and timed, and neither moves a gauge.
pub pending_gauge_settled :
    (c : String) (ss : List Sample) (provider status country method : String) (ms : ℕ)
    → pending_gauge c (
        (ss ++ payments_total provider status country method ∷ [])
        ++ payment_duration ms provider country ∷ [])
      ≡ pending_gauge c ss
pending_gauge_settled c ss provider status country method ms = grind (
  int_laws,
  pending_gauge-append c (ss ++ payments_total provider status country method ∷ [])
      (payment_duration ms provider country),
  pending_gauge-append c ss (payments_total provider status country method),
)

-- One up and one down in one country leave every gauge as it was.
pub pending_gauge_balanced :
    (c country : String) (ss : List Sample)
    → pending_gauge c
        ((ss ++ active_pending (pos 1) country ∷ []) ++ active_pending (negsuc 0) country ∷ [])
      ≡ pending_gauge c ss
pending_gauge_balanced c country ss = grind (
  int_laws,
  pending_gauge-append c (ss ++ active_pending (pos 1) country ∷ [])
      (active_pending (negsuc 0) country),
  pending_gauge-append c ss (active_pending (pos 1) country),
)
