-- ===== src/Manganafer/Quote/Numbers.antt =====
-- The numbers of the language, as the quotes use them (src/lib/manganafer/quote.ts). They are a
-- parameter: a type with the operations that the source calls.
use web_comunidad_solar.Prelude.{ℕ, Bool, Option, none, some, Text, codes, trim}
use web_comunidad_solar.Json.{Json, Number, number, string}

pub record Arithmetic (F : Type 0) : Type 0 where
  -- `Number(text)`, where it is finite
  pub parse : Text → Option F
  -- a number that `JSON.parse` read, where it is finite
  pub of_number : Number → Option F
  -- `String(n)`
  pub print : F → Text
  -- a number as `JSON.stringify` has it
  pub json_of : F → Json
  pub literal : Text → F
  -- `x < y`
  pub less : F → F → Bool
  pub add : F → F → F
  pub subtract : F → F → F
  pub multiply : F → F → F
  pub divide : F → F → F
  pub pi : F
  pub sine : F → F
  pub cosine : F → F
  pub square_root : F → F
  pub arc_tangent : F → F → F
  -- `Math.min(x, y)`
  pub minimum : F → F → F
  pub round : F → F
  -- `Math.floor(n)`, and 0 for a number below 0
  pub floor : F → ℕ
  -- `Math.ceil(n)`, and 0 for a number below 0; `none` for an infinite number
  pub ceil : F → Option ℕ

module _ {F : Type 0} (a : Arithmetic F) where
  -- `asNumber`
  unfoldable pub as_number : Option Json → Option F
  as_number (some (string t)) = a.parse t
  as_number (some (number n)) = a.of_number n
  as_number _ = none

  printed : Option F → Text
  printed none = codes ""
  printed (some n) = a.print n

  -- `asText`
  unfoldable pub as_text : Option Json → Text
  unfolding printed
  as_text (some (string t)) = trim t
  as_text v = printed (as_number v)

-- `asString`
unfoldable pub trimmed_string : Option Json → Text
trimmed_string (some (string t)) = trim t
trimmed_string _ = codes ""
