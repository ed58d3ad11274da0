-- ===== src/Prelude/Strings.antt =====
-- JavaScript strings as lists of UTF-16 code units, with the string operations of the language that
-- the program calls.
use Prim.Native.Nat.{ℕ, zero, suc, ◌+◌, ◌/◌, ◌%◌}
use Prim.Native.Char.{code}
use Prim.Native.String.{String}
use mathlib.Core.Path.{◌≡◌, refl, ap, ap₂}
use mathlib.Core.Logic.{◌↔◌, ◌≢◌}
use mathlib.Core.Bool.{Bool, true, false, ◌&&◌, ◌||◌}
use mathlib.Core.List.{List, [], ◌∷◌, ◌++◌, reverse, append-nil}
use native.Mathlib.Omega.{arith}
use web_comunidad_solar.Prelude.Tests.{ltb, leb, ◌==◌, ==_refl, if◌then◌else◌}
use web_comunidad_solar.Prelude.Lists.{All}

abbrev pub Text : Type 0
Text = List ℕ

-- A literal of the source; none holds a character beyond the basic plane.
abbrev pub codes : String → Text
codes String.[] = []
codes (String.◌∷◌ c s) = code c ∷ codes s

infix 50 ◌===◌
abbrev pub ◌===◌ : Text → Text → Bool
[] === [] = true
(a ∷ s) === (b ∷ t) = a == b && s === t
_ === _ = false

pub ===_refl : (s : Text) → (s === s) ≡ true
===_refl [] = refl
===_refl (a ∷ s) = ground (arith, ===_refl s)

pub eq_of_=== : (s t : Text) → (s === t) ≡ true → s ≡ t
eq_of_=== [] [] h = refl
eq_of_=== (a ∷ s) (b ∷ t) h = ap₂ ◌∷◌ (ground arith) (eq_of_=== s t (ground arith))
eq_of_=== [] (b ∷ t) h = cc
eq_of_=== (a ∷ s) [] h = cc

pub ===_iff : (s t : Text) → ((s === t) ≡ true) ↔ (s ≡ t)
===_iff s t = (eq_of_=== s t, λ e. rw e (===_refl t))

-- `s.startsWith(t)`
abbrev pub starts_with : Text → Text → Bool
starts_with s [] = true
starts_with [] (b ∷ t) = false
starts_with (a ∷ s) (b ∷ t) = a == b && starts_with s t

-- `set.has(s)`, `array.includes(s)`
abbrev pub member : Text → List Text → Bool
member s [] = false
member s (t ∷ ts) = s === t || member s ts

-- `left < right` on strings compares code units.
abbrev pub text_lt : Text → Text → Bool
text_lt s [] = false
text_lt [] (b ∷ t) = true
text_lt (a ∷ s) (b ∷ t) = ltb a b || (a == b && text_lt s t)

abbrev pub is_digit : ℕ → Bool
is_digit c = leb b'0' c && leb c b'9'

abbrev pub is_lower : ℕ → Bool
is_lower c = leb b'a' c && leb c b'z'

abbrev pub is_upper : ℕ → Bool
is_upper c = leb b'A' c && leb c b'Z'

-- The white space of `trim` and of `\s`.
abbrev pub is_space : ℕ → Bool
is_space c =
    (leb 9 c && leb c 13)
    || c == 32
    || c == 0xa0
    || c == 0x1680
    || (leb 0x2000 c && leb c 0x200a)
    || c == 0x2028
    || c == 0x2029
    || c == 0x202f
    || c == 0x205f
    || c == 0x3000
    || c == 0xfeff

abbrev pub trim_start : Text → Text
trim_start [] = []
trim_start (c ∷ s) = let rest = trim_start s in if is_space c then rest else c ∷ s

-- `s.trim()`
unfoldable pub trim : Text → Text
trim s = reverse (trim_start (reverse (trim_start s)))

-- The decimal numeral of a number, most significant digit first.
digits_onto : ℕ → ℕ → Text → Text
digits_onto zero n acc = acc
digits_onto (suc f) n acc =
    let rest = digits_onto f (n / 10) ((b'0' + n % 10) ∷ acc) in
    if ltb n 10 then (b'0' + n) ∷ acc else rest

-- `String(n)`
unfoldable pub decimal : ℕ → Text
unfolding digits_onto
decimal n = digits_onto (suc n) n []

abbrev pub push_first : ℕ → List Text → List Text
push_first c [] = (c ∷ []) ∷ []
push_first c (l ∷ ls) = (c ∷ l) ∷ ls

-- `s.split(sep)` for a separator of one code unit
abbrev pub split : ℕ → Text → List Text
split sep [] = [] ∷ []
split sep (c ∷ s) = let rest = split sep s in if c == sep then [] ∷ rest else push_first c rest

-- `s.slice(0, -1)`
abbrev pub drop_last : Text → Text
drop_last [] = []
drop_last (c ∷ []) = []
drop_last (c ∷ d ∷ s) = c ∷ drop_last (d ∷ s)

-- `s.endsWith(t)` for a text of one code unit
abbrev pub ends_with : ℕ → Text → Bool
ends_with c [] = false
ends_with c (d ∷ []) = d == c
ends_with c (d ∷ e ∷ s) = ends_with c (e ∷ s)

-- `s.length === 0`
abbrev pub is_empty : Text → Bool
is_empty [] = true
is_empty (c ∷ s) = false

abbrev pub join_onto : Text → List Text → Text
join_onto sep [] = []
join_onto sep (t ∷ ts) = sep ++ (t ++ join_onto sep ts)

-- `ts.join(sep)`
abbrev pub join : Text → List Text → Text
join sep [] = []
join sep (t ∷ ts) = t ++ join_onto sep ts

-- No code unit of the text is the separator.
abbrev pub IsFree : ℕ → Text → Type 0
IsFree sep t = All (λ c. c ≢ sep) t

pub split_of_IsFree : (sep : ℕ) (t : Text) → IsFree sep t → split sep t ≡ t ∷ []
split_of_IsFree sep [] h = refl
split_of_IsFree sep (c ∷ t) (p, h) = rw (split_of_IsFree sep t h) (ground arith)

split-append : (sep : ℕ) (t s : Text) → IsFree sep t → split sep (t ++ (sep ∷ s)) ≡ t ∷ split sep s
split-append sep [] s h = rw ==_refl
split-append sep (c ∷ t) s (p, h) = rw (split-append sep t s h) (ground arith)

split-join_onto :
    (sep : ℕ) (t : Text) (ts : List Text)
    → IsFree sep t
    → All (IsFree sep) ts
    → split sep (t ++ join_onto (sep ∷ []) ts) ≡ t ∷ ts
split-join_onto sep t [] h k = rw append-nil (split_of_IsFree sep t h)
split-join_onto sep t (u ∷ ts) h (p, k) =
    rw (split-append sep t (u ++ join_onto (sep ∷ []) ts) h, split-join_onto sep u ts p k)

-- Splitting what was joined gives the parts back.
pub split-join :
    (sep : ℕ) (t : Text) (ts : List Text)
    → All (IsFree sep) (t ∷ ts)
    → split sep (join (sep ∷ []) (t ∷ ts)) ≡ t ∷ ts
split-join sep t ts (h, k) = split-join_onto sep t ts h k

pub drop_last-append : (s : Text) (c : ℕ) → drop_last (s ++ c ∷ []) ≡ s
drop_last-append [] c = refl
drop_last-append (d ∷ []) c = refl
drop_last-append (d ∷ e ∷ s) c = ap (λ t. d ∷ t) (drop_last-append (e ∷ s) c)

pub ends_with-append : (c : ℕ) (s : Text) → ends_with c (s ++ c ∷ []) ≡ true
ends_with-append c [] = ==_refl c
ends_with-append c (d ∷ []) = ==_refl c
ends_with-append c (d ∷ e ∷ s) = ends_with-append c (e ∷ s)

pub is_empty-append : (s : Text) (c : ℕ) → is_empty (s ++ c ∷ []) ≡ false
is_empty-append [] c = refl
is_empty-append (d ∷ s) c = refl

digits_onto-All :
    (f n : ℕ) (acc : Text)
    → All (λ c. is_digit c ≡ true) acc
    → All (λ c. is_digit c ≡ true) (digits_onto f n acc)
unfolding digits_onto
digits_onto-All zero n acc h = h
digits_onto-All (suc f) n acc h = ground (arith, digits_onto-All f (n / 10) ((b'0' + n % 10) ∷ acc))

pub decimal-All_digits : (n : ℕ) → All (λ c. is_digit c ≡ true) (decimal n)
unfolding decimal
decimal-All_digits n = digits_onto-All (suc n) n [] tt
