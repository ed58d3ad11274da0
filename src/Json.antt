-- ===== src/Json.antt =====
-- JSON values as `JSON.parse` gives them, and src/ingest/canonical-json.ts, which prints them with
-- their keys in order.
pub mod Printable
pub mod Decode
pub mod Encode
mod Tests
use web_comunidad_solar.Prelude.{
  ℕ, ◌+◌, ◌-◌, ◌/◌, ◌%◌, Bool, true, false, List, [], ◌∷◌, ◌++◌, Text, codes, join, decimal,
  text_lt, ltb, leb, ◌==◌, ◌≡◌, refl, if◌then◌else◌, ◌&&◌, ◌||◌,
}

-- A whole number from 0 on, or any other finite number by the text that the language prints for it.
pub data Number : Type 0 where
  nat : ℕ → Number
  other : Text → Number

mutual
  pub data Json : Type 0 where
    null : Json
    boolean : Bool → Json
    number : Number → Json
    string : Text → Json
    array : Items → Json
    object : Fields → Json

  pub data Items : Type 0 where
    nil : Items
    cons : Json → Items → Items

  pub data Fields : Type 0 where
    end : Fields
    field : Text → Json → Fields → Fields

is_high : ℕ → Bool
is_high c = leb 0xd800 c && leb c 0xdbff

is_low : ℕ → Bool
is_low c = leb 0xdc00 c && leb c 0xdfff

starts_low : Text → Bool
unfolding is_low
starts_low [] = false
starts_low (c ∷ s) = is_low c

hex_digit : ℕ → ℕ
hex_digit n = if ltb n 10 then b'0' + n else b'a' + (n - 10)

unicode_escape : ℕ → Text
unfolding hex_digit
unicode_escape c =
    b'\\'
    ∷ b'u'
    ∷ hex_digit (c / 0x1000 % 16)
    ∷ hex_digit (c / 0x100 % 16)
    ∷ hex_digit (c / 0x10 % 16)
    ∷ hex_digit (c % 16)
    ∷ []

-- One code unit of a quoted string; `paired` says that it is half of a surrogate pair.
quote_unit : Bool → ℕ → Text
unfolding is_high is_low unicode_escape
quote_unit paired c =
    if c == b'"'
    then codes "\\\""
    else if c == b'\\'
    then codes "\\\\"
    else if c == 8
    then codes "\\b"
    else if c == 9
    then codes "\\t"
    else if c == 10
    then codes "\\n"
    else if c == 12
    then codes "\\f"
    else if c == 13
    then codes "\\r"
    else if ltb c 0x20
    then unicode_escape c
    else if (is_high c || is_low c)
    then (if paired then c ∷ [] else unicode_escape c)
    else c ∷ []

-- `after_high` says that the unit before begins a surrogate pair which this one ends.
quote_units : Bool → Text → Text
unfolding quote_unit starts_low
quote_units after_high [] = []
quote_units after_high (c ∷ s) =
    let opens = is_high c && starts_low s in
    quote_unit (opens || (after_high && is_low c)) c ++ quote_units opens s

-- `JSON.stringify` of a string
unfoldable pub quote : Text → Text
unfolding quote_units
quote s = b'"' ∷ (quote_units false s ++ (b'"' ∷ []))

number_text : Number → Text
number_text (nat n) = decimal n
number_text (other t) = t

boolean_text : Bool → Text
boolean_text true = codes "true"
boolean_text false = codes "false"

abbrev pub Member : Type 0
Member = Text × Text

pub insert_member : Member → List Member → List Member
insert_member x [] = x ∷ []
insert_member x (y ∷ ys) = if text_lt y.0 x.0 then y ∷ insert_member x ys else x ∷ y ∷ ys

-- `.sort(([left], [right]) => …)` on the entries of an object
pub sort_members : List Member → List Member
unfolding insert_member
sort_members [] = []
sort_members (x ∷ xs) = insert_member x (sort_members xs)

pub member_texts : List Member → List Text
unfolding quote
member_texts [] = []
member_texts ((k, v) ∷ ms) = (quote k ++ (b':' ∷ v)) ∷ member_texts ms

unfoldable mutual
  unfolding quote number_text boolean_text sort_members member_texts

  pub serialize_canonical : Json → Text
  serialize_canonical null = codes "null"
  serialize_canonical (boolean b) = boolean_text b
  serialize_canonical (number n) = number_text n
  serialize_canonical (string s) = quote s
  serialize_canonical (array xs) = b'[' ∷ (join (codes ",") (serialize_array xs) ++ (b']' ∷ []))
  serialize_canonical (object fs) =
      b'{' ∷ (join (codes ",") (member_texts (sort_members (serialize_object fs))) ++ (b'}' ∷ []))

  pub serialize_array : Items → List Text
  serialize_array nil = []
  serialize_array (cons x xs) = serialize_canonical x ∷ serialize_array xs

  pub serialize_object : Fields → List Member
  serialize_object end = []
  serialize_object (field k v fs) = (k, serialize_canonical v) ∷ serialize_object fs

unfoldable pub canonical_json : Json → Text
unfolding serialize_canonical decimal
canonical_json v = serialize_canonical v

canonical_order :
    canonical_json (
      object (
        field
          (codes "b")
          (number (nat 120))
          (field (codes "a") (array (cons null (cons (string (codes "x\"y")) nil))) end)))
    ≡ codes "{\"a\":[null,\"x\\\"y\"],\"b\":120}"
unfolding canonical_json
canonical_order = refl
