-- ===== src/Prelude/Texts.antt =====
-- The string methods that the program uses.
use Prim.Native.Nat.{ℕ, zero, suc, ◌/◌, ◌%◌}
use Prim.Native.Char.{Char, code}
use Prim.Native.String
use Prim.Native.String.{String}
use Prim.Native.String.append
use mathlib.Core.Bool.{Bool, true, false, ◌&&◌, ◌||◌}
use mathlib.Core.Path.{◌≡◌, refl, sym, ap, ◌∙◌}
use mathlib.Core.Logic.{inl, inr}
use native.Mathlib.Omega.{arith}
use mathlib.Core.Option.{Option, none, some}
use mathlib.Core.List.{List, [], ◌∷◌}
use pasarelapagos_backend.Prelude.Tests.{◌==◌, String_eq, ℕ_eq, leb, if◌then◌else◌, Bool-cases}

-- The whitespace of `String.prototype.trim`.
abbrev is_space : Char → Bool
is_space c =
    (leb 9 (code c) && leb (code c) 13)
    || code c == 32
    || code c == 160
    || code c == 5760
    || (leb 8192 (code c) && leb (code c) 8202)
    || code c == 8232
    || code c == 8233
    || code c == 8239
    || code c == 8287
    || code c == 12288
    || code c == 65279

-- `s.trim()` is empty
unfoldable pub is_blank : String → Bool
is_blank String.[] = true
is_blank (String.◌∷◌ c s) = is_space c && is_blank s

-- A text is truthy if it is there and not empty.
abbrev pub truthy : Option String → Option String
truthy none = none
truthy (some s) = if s == "" then none else some s

-- Template literals, piece by piece.
infixr 65 ◌<>◌
abbrev pub ◌<>◌ : String → String → String
s <> t = String.◌++◌ s t

digit : ℕ → String
digit zero = "0"
digit (suc zero) = "1"
digit (suc (suc zero)) = "2"
digit (suc (suc (suc zero))) = "3"
digit (suc (suc (suc (suc zero)))) = "4"
digit (suc (suc (suc (suc (suc zero))))) = "5"
digit (suc (suc (suc (suc (suc (suc zero)))))) = "6"
digit (suc (suc (suc (suc (suc (suc (suc zero))))))) = "7"
digit (suc (suc (suc (suc (suc (suc (suc (suc zero)))))))) = "8"
digit _ = "9"

-- Fuel `n + 1` is more than the number of digits of `n`.
decimal_from : ℕ → ℕ → String → String
unfolding digit
decimal_from zero n acc = acc
decimal_from (suc fuel) n acc =
    let longer = digit (n % 10) <> acc in
    let rest = decimal_from fuel (n / 10) longer in if leb 10 n then rest else longer

-- `n.toString()` of a number or a bigint that is not negative
unfoldable pub decimal : ℕ → String
unfolding decimal_from
decimal n = decimal_from (suc n) n ""

-- `s.slice(n)` and `s.slice(0, n)`, character by character
unfoldable pub slice_from : ℕ → String → String
slice_from zero s = s
slice_from (suc n) String.[] = ""
slice_from (suc n) (String.◌∷◌ c s) = slice_from n s

unfoldable pub slice_to : ℕ → String → String
slice_to zero s = ""
slice_to (suc n) String.[] = ""
slice_to (suc n) (String.◌∷◌ c s) = String.◌∷◌ c (slice_to n s)

-- `s.startsWith(t)`
unfoldable pub starts_with : String → String → Bool
starts_with s String.[] = true
starts_with String.[] (String.◌∷◌ d t) = false
starts_with (String.◌∷◌ c s) (String.◌∷◌ d t) = code c == code d && starts_with s t

-- `s.length`, of a text without surrogate pairs
unfoldable pub size : String → ℕ
size String.[] = zero
size (String.◌∷◌ c s) = suc (size s)

pub starts_with-append : (s t : String) → starts_with (s <> t) s ≡ true
unfolding starts_with
starts_with-append String.[] t = refl
starts_with-append (String.◌∷◌ c s) t =
    let later = starts_with-append s t in rw (append.cons c s t) (ground arith)

pub slice_from-append : (s t : String) → slice_from (size s) (s <> t) ≡ t
unfolding slice_from size
slice_from-append String.[] t = append.nil t
slice_from-append (String.◌∷◌ c s) t = rw (append.cons c s t) (slice_from-append s t)

pub slice_to-append :
    (n : ℕ) (s t : String) → size (slice_to n s) ≡ n → slice_to n (slice_to n s <> t) ≡ slice_to n s
unfolding slice_to size
slice_to-append zero s t e = refl
slice_to-append (suc n) String.[] t e = ground arith
slice_to-append (suc n) (String.◌∷◌ c s) t e =
    rw (append.cons c (slice_to n s) t) (ap (String.◌∷◌ c) (slice_to-append n s t (omega arith)))

abbrev push : Char → List String → List String
push c [] = String.◌∷◌ c "" ∷ []
push c (t ∷ ts) = String.◌∷◌ c t ∷ ts

-- `s.split(c)`, with the code of the character
unfoldable pub split_at : ℕ → String → List String
split_at c String.[] = "" ∷ []
split_at c (String.◌∷◌ d s) =
    let rest = split_at c s in if code d == c then "" ∷ rest else push d rest

split_at-cons : (c : ℕ) (s : String) → (q : String) × (qs : List String) × (split_at c s ≡ q ∷ qs)
unfolding split_at
split_at-cons c String.[] = ("", [], refl)
split_at-cons c (String.◌∷◌ d s) = elim (Bool-cases (code d == c)) [
  | inl e ↦ ("", split_at c s, rw e refl)
  | inr e ↦ let (q, qs, h) = split_at-cons c s in (String.◌∷◌ d q, qs, rw (e, h) refl)
]

-- A text in one part is that part.
split_at-one : (c : ℕ) (s p : String) → split_at c s ≡ p ∷ [] → s ≡ p
unfolding split_at
split_at-one c String.[] p e = ground arith
split_at-one c (String.◌∷◌ d s) p e =
    let (q, qs, h) = split_at-cons c s in
    elim (Bool-cases (code d == c)) [
      | inl here ↦ absurd (ground arith)
      | inr later ↦
          let whole : String.◌∷◌ d q ∷ qs ≡ p ∷ [] = rw (later, h) at e in
          let none_is : qs ≡ [] = cc in
          let head : String.◌∷◌ d q ≡ p = cc in
          let rest = split_at-one c s q (h ∙ ap (λ r. q ∷ r) none_is) in
          ap (String.◌∷◌ d) rest ∙ head
    ]

-- A text in two parts starts with the first one and the separator, and goes on with the other.
pub split_at-two :
    (c : Char) (s p t : String)
    → split_at (code c) s ≡ p ∷ t ∷ []
    → (starts_with s (p <> String.◌∷◌ c "") ≡ true) × (slice_from (suc (size p)) s ≡ t)
unfolding split_at starts_with slice_from size
split_at-two c String.[] p t e = absurd (ground arith)
split_at-two c (String.◌∷◌ d s) p t e =
    let (q, qs, h) = split_at-cons (code c) s in
    elim (Bool-cases (code d == code c)) [
      | inl here ↦
          let whole : Path (List String) ("" ∷ split_at (code c) s) (p ∷ t ∷ []) = rw here at e in
          let head : Path String "" p = cc in
          let tail : split_at (code c) s ≡ t ∷ [] = cc in
          let both = split_at-one (code c) s t tail in
          let p_is : p ≡ "" = sym head in rw (p_is, append.nil (String.◌∷◌ c ""), here) (refl, both)
      | inr later ↦
          let whole : String.◌∷◌ d q ∷ qs ≡ p ∷ t ∷ [] = rw (later, h) at e in
          let head : String.◌∷◌ d q ≡ p = cc in
          let tail : qs ≡ t ∷ [] = cc in
          let (a, b) = split_at-two c s q t (h ∙ ap (λ r. q ∷ r) tail) in
          let p_is : p ≡ String.◌∷◌ d q = sym head in
          rw (p_is, append.cons d q (String.◌∷◌ c "")) (ground arith, b)
    ]
