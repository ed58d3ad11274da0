-- ===== src/Json/Encode.antt =====
-- Writing the object literals of src/ingest down as JSON values.
use web_comunidad_solar.Prelude.{Option, none, some, List, [], ◌∷◌, Text}
use web_comunidad_solar.Json.{
  Json, null, string, array, object, Items, nil, cons, Fields, end, field,
}

abbrev pub items {ℓ} : {A : Type ℓ} → (A → Json) → List A → Items
items f [] = nil
items f (x ∷ xs) = cons (f x) (items f xs)

-- `values.map(f)` as a JSON value
abbrev pub array_of {ℓ} : {A : Type ℓ} → (A → Json) → List A → Json
array_of f xs = array (items f xs)

abbrev pub fields : List (Text × Json) → Fields
fields [] = end
fields ((k, v) ∷ fs) = field k v (fields fs)

abbrev pub object_of : List (Text × Json) → Json
object_of fs = object (fields fs)

abbrev pub nullable : Option Text → Json
nullable none = null
nullable (some t) = string t
