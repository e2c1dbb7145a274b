-- ===== src/Guards/Pci.antt =====
-- src/common/guards/pci.guard.ts. `JSON.stringify` and `toLowerCase` are parameters.
pub mod Keys
use Prim.Native.Char.{Char, code}
use Prim.Native.String
use pasarelapagos_backend.Prelude.{
  ℕ, zero, suc, ◌+◌, String, Bool, true, false, Option, none, some, List, [], ◌∷◌, ◌++◌, ◌&&◌, ◌||◌,
  ◌==◌, ℕ_eq, String_eq, any, contains, leb, decimal, if◌then◌else◌,
}
use pasarelapagos_backend.Errors.{Result, ok, err, unprocessable}
use pasarelapagos_backend.Json.{
  Json, Items, Fields, null, bool, num, str, arr, obj, end, field, nil, cons,
}

abbrev pub forbidden_fields : List String
forbidden_fields =
    "card_number" ∷ "cardnumber" ∷ "pan" ∷ "cvv" ∷ "cvc" ∷ "cvc2" ∷ "cvv2" ∷ "security_code"
    ∷ "track1" ∷ "track2" ∷ "magnetic_stripe" ∷ []

-- `flatKeys`: the keys of an object and of the objects under it, but not of those in an array.
unfoldable mutual
  pub flat_keys : Fields → List String
  flat_keys end = []
  flat_keys (field k v rest) = k ∷ (nested_keys v ++ flat_keys rest)

  pub nested_keys : Json → List String
  nested_keys null = []
  nested_keys (bool b) = []
  nested_keys (num n) = []
  nested_keys (str s) = []
  nested_keys (arr items) = []
  nested_keys (obj fields) = flat_keys fields

-- The same of an array, whose keys are its indices.
unfoldable pub index_keys : ℕ → Items → List String
unfolding nested_keys
index_keys n nil = []
index_keys n (cons v rest) = decimal n ∷ (nested_keys v ++ index_keys (suc n) rest)

abbrev is_digit : Char → Bool
is_digit c = leb 48 (code c) && leb (code c) 57

-- `\w`
abbrev is_word : Char → Bool
is_word c =
    is_digit c
    || (leb 65 (code c) && leb (code c) 90)
    || (leb 97 (code c) && leb (code c) 122)
    || code c == 95

abbrev is_pan_size : Option ℕ → Bool
is_pan_size none = false
is_pan_size (some n) = leb 13 n && leb n 19

-- A word so far: how many digits it is, unless it has another character.
abbrev extend : Option ℕ → Char → Option ℕ
extend none c = none
extend (some n) c = if is_digit c then some (suc n) else none

-- `/\b[0-9]{13,19}\b/.test(s)`: some whole word of `s` is 13 to 19 digits.
unfoldable pub has_pan_from : Option ℕ → String → Bool
has_pan_from word String.[] = is_pan_size word
has_pan_from word (String.◌∷◌ c s) =
    if is_word c
    then has_pan_from (extend word c) s
    else is_pan_size word || has_pan_from (some 0) s

unfoldable pub has_pan : String → Bool
unfolding has_pan_from
has_pan s = has_pan_from (some 0) s

abbrev pub tokenize : String
tokenize =
    "No envíes datos de tarjeta directamente. Tokenizá con el SDK del provider en el frontend."

module _ (stringify : Json → String) (to_lower_case : String → String) where
  abbrev pub is_forbidden : String → Bool
  is_forbidden key = contains forbidden_fields (to_lower_case key)

  abbrev check_text : String → Result (Unit {0})
  check_text s = if has_pan s then err (unprocessable tokenize) else ok tt

  abbrev check_body : List String → Json → Result (Unit {0})
  check_body keys body =
      if any is_forbidden keys then err (unprocessable tokenize) else check_text (stringify body)

  -- `canActivate`
  unfoldable pub pci_guard : Json → Result (Unit {0})
  unfolding flat_keys index_keys has_pan any contains
  pci_guard null = ok tt
  pci_guard (bool b) = ok tt
  pci_guard (num n) = ok tt
  pci_guard (str s) = ok tt
  pci_guard (arr items) = check_body (index_keys 0 items) (arr items)
  pci_guard (obj fields) = check_body (flat_keys fields) (obj fields)
