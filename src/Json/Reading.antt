-- ===== src/Json/Reading.antt =====
-- How the program reads a value of type `any`: optional chaining, `??`, and `String`.
use pasarelapagos_backend.Prelude.{
  String, Bool, true, false, not, Option, none, some, ◌<>◌, ◌==◌, String_eq, ℕ_eq, decimal,
  if◌then◌else◌, zero, suc,
}
use pasarelapagos_backend.Prelude.Int.{pos, negsuc}
use pasarelapagos_backend.Json.{
  Json, Items, Fields, null, bool, num, str, arr, obj, nil, cons, end, field,
}

-- `null` counts as missing, for `?.` and for `??`.
abbrev pub present : Json → Option Json
present null = none
present (bool b) = some (bool b)
present (num n) = some (num n)
present (str s) = some (str s)
present (arr items) = some (arr items)
present (obj fields) = some (obj fields)

unfoldable pub field_of : String → Fields → Option Json
field_of k end = none
field_of k (field j v rest) = if j == k then present v else field_of k rest

-- `v?.k`, where `k` is no property that a text or an array has by itself
unfoldable pub member : String → Json → Option Json
unfolding field_of
member k null = none
member k (bool b) = none
member k (num n) = none
member k (str s) = none
member k (arr items) = none
member k (obj fields) = field_of k fields

abbrev pub then_member : String → Option Json → Option Json
then_member k none = none
then_member k (some v) = member k v

-- `v?.[0]`
unfoldable pub first : Json → Option Json
unfolding field_of
first null = none
first (bool b) = none
first (num n) = none
first (str String.[]) = none
first (str (String.◌∷◌ c s)) = some (str (String.◌∷◌ c ""))
first (arr nil) = none
first (arr (cons v rest)) = present v
first (obj fields) = field_of "0" fields

abbrev pub then_first : Option Json → Option Json
then_first none = none
then_first (some v) = first v

-- `items[items.length - 1]`
unfoldable pub last_of : Items → Option Json
last_of nil = none
last_of (cons v nil) = present v
last_of (cons v (cons u rest)) = last_of (cons u rest)

-- The last item of an array. What has no items has none; of a text the last character is left out, as
-- it has no fields that are read.
abbrev pub last_item : Option Json → Option Json
last_item none = none
last_item (some null) = none
last_item (some (bool b)) = none
last_item (some (num n)) = none
last_item (some (str s)) = none
last_item (some (arr items)) = last_of items
last_item (some (obj fields)) = none

abbrev or_blank : Json → String → String
or_blank null s = ""
or_blank (bool b) s = s
or_blank (num n) s = s
or_blank (str t) s = s
or_blank (arr items) s = s
or_blank (obj fields) s = s

-- `String(v)`
unfoldable mutual
  pub shown : Json → String
  shown null = "null"
  shown (bool true) = "true"
  shown (bool false) = "false"
  shown (num (pos n)) = decimal n
  shown (num (negsuc n)) = "-" <> decimal (suc n)
  shown (str s) = s
  shown (arr items) = joined items
  shown (obj fields) = "[object Object]"

  pub joined : Items → String
  joined nil = ""
  joined (cons v nil) = or_blank v (shown v)
  joined (cons v (cons u rest)) = or_blank v (shown v) <> "," <> joined (cons u rest)

-- A text that is read from a value which may be missing: `v ?? d`.
abbrev pub text_or : String → Option Json → String
text_or d none = d
text_or d (some v) = shown v

abbrev pub text_of : Option Json → Option String
text_of none = none
text_of (some v) = some (shown v)

-- A value that counts as true.
unfoldable pub truthy_json : Json → Bool
truthy_json null = false
truthy_json (bool b) = b
truthy_json (num (pos zero)) = false
truthy_json (num (pos (suc n))) = true
truthy_json (num (negsuc n)) = true
truthy_json (str s) = not (s == "")
truthy_json (arr items) = true
truthy_json (obj fields) = true
