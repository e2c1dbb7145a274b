-- ===== src/Prelude/Tests.antt =====
-- Boolean tests on numbers and texts, the conditional, and case lemmas.
use Prim.Native.Nat.{ℕ, compare, Ordering}
use Prim.Native.String.{String}
use mathlib.Core.Path.{◌≡◌, refl}
use mathlib.Core.Logic.{◌↔◌, ◌⊎◌, inl, inr}
use mathlib.Core.Bool.{Bool, true, false}
use mathlib.Core.Option.{Option, none, some}
use native.Mathlib.Omega.{arith}
use text.Mathlib.Text.{◌==◌ as str_eq}
use text.Mathlib.TextEquality.{eq_iff}

abbrev pub ltb : ℕ → ℕ → Bool
ltb a b = elim (compare a b) [ Ordering.lt ↦ true | _ ↦ false ]

abbrev pub leb : ℕ → ℕ → Bool
leb a b = elim (compare a b) [ Ordering.gt ↦ false | _ ↦ true ]

abbrev pub nat_eq : ℕ → ℕ → Bool
nat_eq a b = elim (compare a b) [ Ordering.eq ↦ true | _ ↦ false ]

pub nat_eq_iff : (a b : ℕ) → (nat_eq a b ≡ true) ↔ (a ≡ b)
nat_eq_iff a b = ground arith

-- The types whose values the program compares by `===`, with a test that decides their paths.
pub record Comparable {ℓ} (A : Type ℓ) : Type ℓ where
  pub same : (a b : A) → Bool
  pub same-sound : (a b : A) → same a b ≡ true → a ≡ b
  pub same-complete : (a b : A) → a ≡ b → same a b ≡ true

infix 50 ◌==◌
module _ {ℓ} {A : Type ℓ} ⦃c : Comparable A⦄ where
  abbrev pub ◌==◌ : A → A → Bool
  ◌==◌ a b = c.same a b

instance abbrev pub String_eq : Comparable String
String_eq = record {
  same = str_eq;
  same-sound = λ a b h. (eq_iff a b).0 h;
  same-complete = λ a b p. (eq_iff a b).1 p;
}

instance abbrev pub ℕ_eq : Comparable ℕ
ℕ_eq = record {
  same = nat_eq;
  same-sound = λ a b h. (nat_eq_iff a b).0 h;
  same-complete = λ a b p. (nat_eq_iff a b).1 p;
}

infix 1 if◌then◌else◌
abbrev pub if◌then◌else◌ {ℓ} : {A : Type ℓ} → Bool → A → A → A
if true then x else y = x
if false then x else y = y

pub Bool-cases : (b : Bool) → (b ≡ true) ⊎ (b ≡ false)
Bool-cases true = inl refl
Bool-cases false = inr refl

module _ {ℓ} {A : Type ℓ} where
  pub Option-cases : (o : Option A) → (o ≡ none) ⊎ ((a : A) × (o ≡ some a))
  Option-cases none = inl refl
  Option-cases (some a) = inr (a, refl)

  -- `o ?? d`
  abbrev pub or_else : Option A → A → A
  or_else none d = d
  or_else (some a) d = a

  -- `o ?? p`, where `p` may be missing too
  abbrev pub or_opt : Option A → Option A → Option A
  or_opt none p = p
  or_opt (some a) p = some a

  abbrev pub is_some : Option A → Bool
  is_some none = false
  is_some (some a) = true

-- A condition that is false.
pub not_true {ℓ} : {A : Type ℓ} (b : Bool) → b ≡ true → b ≡ false → A
not_true b p q = absurd (cc)
