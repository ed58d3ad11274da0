-- ===== src/Json/Decode.antt =====
-- Reading the fields of a parsed object, as the validators of src/ingest do.
use web_comunidad_solar.Prelude.{
  ℕ, ◌-◌, ◌^◌, Bool, true, false, Option, none, some, List, [], ◌∷◌, Text, text_lt, ltb, leb, ◌===◌,
  if◌then◌else◌, ◌&&◌,
}
use web_comunidad_solar.Json.{Json, nat, null, number, string, object, Fields, end, field}

-- A chain of tests and reads that gives up at the first one that fails.
infixl 5 ◌>>=◌ ◌>>◌
abbrev pub ◌>>=◌ {ℓ κ} : {A : Type ℓ} {B : Type κ} → Option A → (A → Option B) → Option B
none >>= k = none
some a >>= k = k a

abbrev pub ◌>>◌ {ℓ} : {B : Type ℓ} → Option (Unit {0}) → Option B → Option B
m >> k = m >>= λ _. k

abbrev pub guard : Bool → Option (Unit {0})
guard true = some tt
guard false = none

abbrev pub own : Text → Fields → Option Json
own k end = none
own k (field j v fs) = if j === k then some v else own k fs

abbrev pub keys : Fields → List Text
keys end = []
keys (field k v fs) = k ∷ keys fs

abbrev pub insert_text : Text → List Text → List Text
insert_text x [] = x ∷ []
insert_text x (y ∷ ys) = if text_lt y x then y ∷ insert_text x ys else x ∷ y ∷ ys

-- `keys.sort()`
abbrev pub sort_texts : List Text → List Text
sort_texts [] = []
sort_texts (x ∷ xs) = insert_text x (sort_texts xs)

abbrev pub texts_equal : List Text → List Text → Bool
texts_equal [] [] = true
texts_equal (a ∷ xs) (b ∷ ys) = a === b && texts_equal xs ys
texts_equal _ _ = false

-- The tests on `Object.keys(value).sort()`.
abbrev pub has_exact_keys : Fields → List Text → Bool
has_exact_keys fs expected = texts_equal (sort_texts (keys fs)) expected

abbrev pub as_object : Json → Option Fields
as_object (object fs) = some fs
as_object _ = none

abbrev pub as_string : Option Json → Option Text
as_string (some (string t)) = some t
as_string _ = none

-- A string or `null`.
abbrev pub as_nullable : Option Json → Option (Option Text)
as_nullable (some null) = some none
as_nullable (some (string t)) = some (some t)
as_nullable _ = none

abbrev pub max_safe_integer : ℕ
max_safe_integer = 2 ^ 53 - 1

abbrev is_positive : ℕ → Bool
is_positive n = ltb 0 n && leb n max_safe_integer

-- `Number.isSafeInteger(value) && value > 0`. A number that is not whole and at least 0 fails.
abbrev pub as_positive : Option Json → Option ℕ
as_positive (some (number (nat n))) = if is_positive n then some n else none
as_positive _ = none
