-- ===== src/Prelude/Lists.antt =====
-- Lists measured by native numbers, array methods, and association lists keyed by texts.
use Prim.Native.Nat.{ℕ, zero, suc, ◌+◌, ◌≤◌, min}
use Prim.Native.String.{String}
use mathlib.Core.Path.{◌≡◌, refl, ap}
use mathlib.Core.Logic.{◌↔◌, inl, inr}
use mathlib.Core.Bool.{Bool, true, false, ◌||◌}
use mathlib.Core.List.{List, [], ◌∷◌, ◌++◌, map, Memᴰ}
use mathlib.Core.Option.{Option, none, some}
use native.Mathlib.Omega.{arith}
use pasarelapagos_backend.Prelude.Tests.{Comparable, ◌==◌, String_eq, if◌then◌else◌, Bool-cases}

module _ {ℓ} {A : Type ℓ} where
  abbrev pub length : List A → ℕ
  length [] = 0
  length (x ∷ xs) = suc (length xs)

  abbrev pub take : ℕ → List A → List A
  take zero xs = []
  take (suc n) [] = []
  take (suc n) (x ∷ xs) = x ∷ take n xs

  abbrev pub drop : ℕ → List A → List A
  drop zero xs = xs
  drop (suc n) [] = []
  drop (suc n) (x ∷ xs) = drop n xs

  abbrev pub head? : List A → Option A
  head? [] = none
  head? (x ∷ xs) = some x

  -- `Array.find`, and Prisma's `findFirst`
  unfoldable pub find : (A → Bool) → List A → Option A
  find p [] = none
  find p (x ∷ xs) = if p x then some x else find p xs

  -- `Array.some`
  unfoldable pub any : (A → Bool) → List A → Bool
  any p [] = false
  any p (x ∷ xs) = p x || any p xs

  -- `Array.filter`, and Prisma's `findMany`
  unfoldable pub filter : (A → Bool) → List A → List A
  filter p [] = []
  filter p (x ∷ xs) = if p x then x ∷ filter p xs else filter p xs

  abbrev pub All {κ} : (A → Type κ) → List A → Type κ
  All P [] = Unit
  All P (x ∷ xs) = P x × All P xs

  pub length-append : (xs ys : List A) → length (xs ++ ys) ≡ length xs + length ys
  length-append [] ys = omega arith
  length-append (x ∷ xs) ys = omega (arith, length-append xs ys)

  pub length-take : (n : ℕ) (xs : List A) → length (take n xs) ≡ min n (length xs)
  length-take zero xs = omega arith
  length-take (suc n) [] = omega arith
  length-take (suc n) (x ∷ xs) = omega (arith, length-take n xs)

  pub take_all : (n : ℕ) (xs : List A) → length xs ≤ n → take n xs ≡ xs
  take_all zero [] h = refl
  take_all (suc n) [] h = refl
  take_all zero (x ∷ xs) h = absurd (omega arith)
  take_all (suc n) (x ∷ xs) h = ap (λ ys. x ∷ ys) (take_all n xs (omega arith))

  pub find-true : (p : A → Bool) (xs : List A) {a : A} → find p xs ≡ some a → p a ≡ true
  unfolding find
  find-true p [] e = cc
  find-true p (x ∷ xs) {a} e = elim (Bool-cases (p x)) [
    | inl h ↦ let same : some x ≡ some a = rw h at e in cc
    | inr h ↦ find-true p xs (rw h at e)
  ]

-- `Array.includes`
module _ {ℓ} {A : Type ℓ} ⦃e : Comparable A⦄ where
  unfoldable pub contains : List A → A → Bool
  contains [] a = false
  contains (x ∷ xs) a = a == x || contains xs a

-- `record[key]` on an object literal that is used as a table
unfoldable pub lookup {ℓ} : {V : Type ℓ} → String → List (String × V) → Option V
lookup k [] = none
lookup k ((j, v) ∷ m) = if j == k then some v else lookup k m

-- What `find` gives is the first element that passes the test.
pub record IsFound {ℓ} {A : Type ℓ} (p : A → Bool) (xs : List A) (a : A) : Type ℓ where
  pub before : List A
  pub after : List A
  pub split : xs ≡ before ++ a ∷ after
  pub passes : p a ≡ true
  pub skipped : All (λ x. p x ≡ false) before

module _ {ℓ} {A : Type ℓ} (p : A → Bool) where
  pub find-IsFound : (xs : List A) {a : A} → find p xs ≡ some a → IsFound p xs a
  unfolding find
  find-IsFound [] e = cc
  find-IsFound (x ∷ xs) {a} e = elim (Bool-cases (p x)) [
    | inl h ↦
        let same : some x ≡ some a = rw h at e in
        let eq : x ≡ a = cc in
        record {
          before = [];
          after = xs;
          split = ap (λ y. y ∷ xs) eq;
          passes = rw (← eq) h;
          skipped = tt;
        }
    | inr h ↦
        let f = find-IsFound xs {a = a} (rw h at e) in
        record {
          before = x ∷ f.before;
          after = f.after;
          split = ap (λ ys. x ∷ ys) f.split;
          passes = f.passes;
          skipped = (h, f.skipped);
        }
  ]

  pub any-find-none : (xs : List A) → find p xs ≡ none → any p xs ≡ false
  unfolding find any
  any-find-none [] e = refl
  any-find-none (x ∷ xs) e = elim (Bool-cases (p x)) [
    | inl h ↦ cc
    | inr h ↦ rw h (any-find-none xs (rw h at e))
  ]

  pub find-none_iff : (xs : List A) → (find p xs ≡ none) ↔ All (λ x. p x ≡ false) xs
  unfolding find
  find-none_iff [] = (λ e. tt, λ h. refl)
  find-none_iff (x ∷ xs) = elim (Bool-cases (p x)) [
    | inl h ↦ (λ e. cc, λ (k, _). cc)
    | inr h ↦ (λ e. (h, (find-none_iff xs).0 (rw h at e)), λ (_, k). rw h ((find-none_iff xs).1 k))
  ]

module _ {ℓ κ μ} {A : Type ℓ} {P : A → Type κ} {Q : A → Type μ} where
  pub All-map : ((a : A) → P a → Q a) → (xs : List A) → All P xs → All Q xs
  All-map f [] h = tt
  All-map f (x ∷ xs) (p, h) = (f x p, All-map f xs h)

module _ {ℓ κ} {A : Type ℓ} (P : A → Type κ) where
  pub All-concat : (xs : List A) {x : A} → All P xs → P x → All P (xs ++ x ∷ [])
  All-concat [] h p = (p, tt)
  All-concat (y ∷ xs) (q, h) p = (q, All-concat xs h p)

module _ {ℓ} {A : Type ℓ} (p : A → Bool) where
  -- The last element is found if it passes and nothing before it does.
  pub find-append_none :
      (xs : List A) (a : A) → find p xs ≡ none → p a ≡ true → find p (xs ++ a ∷ []) ≡ some a
  unfolding find
  find-append_none [] a e h = rw h
  find-append_none (x ∷ xs) a e h = elim (Bool-cases (p x)) [
    | inl yes_x ↦ let found : some x ≡ none = rw yes_x at e in cc
    | inr no_x ↦ rw no_x (find-append_none xs a (rw no_x at e) h)
  ]

module _ {ℓ κ} {A : Type ℓ} ⦃e : Comparable A⦄ (P : A → Type κ) where
  -- What holds of every element holds of one that is included.
  pub All-contains : (xs : List A) (a : A) → All P xs → contains xs a ≡ true → P a
  unfolding contains
  All-contains [] a h c = cc
  All-contains (x ∷ xs) a (p, h) c = elim (Bool-cases (a == x)) [
    | inl same ↦ rw (e.same-sound a x same) p
    | inr other ↦ All-contains xs a h (rw other at c)
  ]

pub length-map {ℓ κ} :
    {A : Type ℓ} {B : Type κ} (f : A → B) (xs : List A) → length (map f xs) ≡ length xs
length-map f [] = refl
length-map f (x ∷ xs) = ap suc (length-map f xs)

module _ {ℓ} {A : Type ℓ} where
  pub All-take {κ} : (P : A → Type κ) (n : ℕ) (xs : List A) → All P xs → All P (take n xs)
  All-take P zero xs h = tt
  All-take P (suc n) [] h = tt
  All-take P (suc n) (x ∷ xs) (p, h) = (p, All-take P n xs h)

  -- What a filter keeps stood in the list and passes the test.
  pub All-filter : (t : A → Bool) (xs : List A) → All (λ a. Memᴰ a xs × (t a ≡ true)) (filter t xs)
  unfolding filter
  All-filter t [] = tt
  All-filter t (x ∷ xs) =
      let rest : All (λ a. Memᴰ a (x ∷ xs) × (t a ≡ true)) (filter t xs) =
        All-map (λ a (m, h). (Memᴰ.tail m, h)) (filter t xs) (All-filter t xs) in
      elim (Bool-cases (t x)) [
        | inl yes_x ↦ rw yes_x ((Memᴰ.head refl, yes_x), rest)
        | inr no_x ↦ rw no_x rest
      ]

  pub All-image {κ μ} :
      {B : Type κ} (P : B → Type μ) (f : A → B) (xs : List A)
      → All (λ a. P (f a)) xs
      → All P (map f xs)
  All-image P f [] h = tt
  All-image P f (x ∷ xs) (p, h) = (p, All-image P f xs h)

-- What holds of every value of a table holds of one that is looked up.
pub lookup-All {ℓ κ} :
    {V : Type ℓ} (P : V → Type κ) (k : String) (m : List (String × V)) {v : V}
    → All (λ e. P e.1) m
    → lookup k m ≡ some v
    → P v
unfolding lookup
lookup-All P k [] h e = cc
lookup-All P k ((j, u) ∷ m) {v} (p, h) e = elim (Bool-cases (j == k)) [
  | inl same ↦ let eq : some u ≡ some v = rw same at e in let here : u ≡ v = cc in rw here at p
  | inr other ↦ lookup-All P k m h (rw other at e)
]
