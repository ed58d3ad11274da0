-- ===== src/Json/Printable.antt =====
-- The characters that canonical JSON is made of.
use web_comunidad_solar.Prelude.{
  ℕ, ◌≤◌, Bool, List, [], ◌∷◌, ◌≡◌, Text, decimal, decimal-All_digits, join, join_onto, All,
  All-append, arith, text_lt, is_digit, true, false, Bool-cases, inl, inr,
}
use web_comunidad_solar.Json.{
  Json, nat, other, null, boolean, number, string, array, object, Items, nil, cons, Fields, end,
  field, hex_digit, unicode_escape, quote_unit, quote_units, quote, Member, insert_member,
  sort_members, member_texts, serialize_canonical, serialize_array, serialize_object,
  canonical_json,
}

abbrev pub IsPrintable : Text → Type 0
IsPrintable t = All (λ c. 32 ≤ c) t

hex_digit-Printable : (n : ℕ) → 32 ≤ hex_digit n
unfolding hex_digit
hex_digit-Printable n = ground arith

unicode_escape-Printable : (c : ℕ) → IsPrintable (unicode_escape c)
unfolding unicode_escape
unicode_escape-Printable c = omega (arith, hex_digit-Printable)

quote_unit-Printable : (b : Bool) (c : ℕ) → IsPrintable (quote_unit b c)
unfolding quote_unit
quote_unit-Printable b c = ground (arith, unicode_escape-Printable c)

quote_units-Printable : (s : Text) (b : Bool) → IsPrintable (quote_units b s)
unfolding quote_units
quote_units-Printable [] b = tt
quote_units-Printable (c ∷ s) b =
    All-append (λ d. 32 ≤ d) _ _ (quote_unit-Printable _ c) (quote_units-Printable s _)

pub quote-Printable : (s : Text) → IsPrintable (quote s)
unfolding quote
quote-Printable s =
    (omega arith, All-append (λ d. 32 ≤ d) _ _ (quote_units-Printable s _) (omega arith, tt))

digits-Printable : (t : Text) → All (λ c. is_digit c ≡ true) t → IsPrintable t
digits-Printable [] h = tt
digits-Printable (c ∷ t) (p, h) = (ground arith, digits-Printable t h)

-- The numbers that are not whole have a printable text.
abbrev mutual
  pub HasPlainNumbers : Json → Type 0
  HasPlainNumbers (number (other t)) = IsPrintable t
  HasPlainNumbers (array xs) = HasPlainItems xs
  HasPlainNumbers (object fs) = HasPlainFields fs
  HasPlainNumbers _ = Unit

  pub HasPlainItems : Items → Type 0
  HasPlainItems nil = Unit
  HasPlainItems (cons x xs) = HasPlainNumbers x × HasPlainItems xs

  pub HasPlainFields : Fields → Type 0
  HasPlainFields end = Unit
  HasPlainFields (field k v fs) = HasPlainNumbers v × HasPlainFields fs

abbrev AllPrintable : List Text → Type 0
AllPrintable ts = All IsPrintable ts

abbrev ValuesPrintable : List Member → Type 0
ValuesPrintable ms = All (λ m. IsPrintable m.1) ms

insert_member-Printable :
    (m : Member) (ms : List Member)
    → IsPrintable m.1
    → ValuesPrintable ms
    → ValuesPrintable (insert_member m ms)
unfolding insert_member
insert_member-Printable m [] h k = (h, tt)
insert_member-Printable m (n ∷ ms) h (q, k) = elim (Bool-cases (text_lt n.0 m.0)) [
  | inl e ↦ rw e (q, insert_member-Printable m ms h k)
  | inr e ↦ rw e (h, (q, k))
]

sort_members-Printable : (ms : List Member) → ValuesPrintable ms → ValuesPrintable (sort_members ms)
unfolding sort_members
sort_members-Printable [] h = tt
sort_members-Printable (m ∷ ms) (p, h) =
    insert_member-Printable m (sort_members ms) p (sort_members-Printable ms h)

member_texts-Printable : (ms : List Member) → ValuesPrintable ms → AllPrintable (member_texts ms)
unfolding member_texts
member_texts-Printable [] h = tt
member_texts-Printable ((k, v) ∷ ms) (p, h) = (
  All-append (λ d. 32 ≤ d) (quote k) (b':' ∷ v) (quote-Printable k) (omega arith, p),
  member_texts-Printable ms h,
)

join_onto-Printable :
    (sep : Text) (ts : List Text)
    → IsPrintable sep
    → AllPrintable ts
    → IsPrintable (join_onto sep ts)
join_onto-Printable sep [] h k = tt
join_onto-Printable sep (t ∷ ts) h (p, k) =
    All-append (λ d. 32 ≤ d) _ _ h (All-append (λ d. 32 ≤ d) _ _ p (join_onto-Printable sep ts h k))

join-Printable : (ts : List Text) → AllPrintable ts → IsPrintable (join (b',' ∷ []) ts)
join-Printable [] h = tt
join-Printable (t ∷ ts) (p, h) =
    All-append (λ d. 32 ≤ d) _ _ p (join_onto-Printable (b',' ∷ []) ts (omega arith, tt) h)

mutual
  unfolding serialize_canonical

  serialize-Printable : (v : Json) → HasPlainNumbers v → IsPrintable (serialize_canonical v)
  serialize-Printable null h = omega arith
  serialize-Printable (boolean true) h = omega arith
  serialize-Printable (boolean false) h = omega arith
  serialize-Printable (number (nat n)) h = digits-Printable (decimal n) (decimal-All_digits n)
  serialize-Printable (number (other t)) h = h
  serialize-Printable (string s) h = quote-Printable s
  serialize-Printable (array xs) h = (
    omega arith,
    All-append (λ d. 32 ≤ d) _ _ (join-Printable _ (serialize_array-Printable xs h))
        (omega arith, tt),
  )
  serialize-Printable (object fs) h = (
    omega arith,
    All-append (λ d. 32 ≤ d) _ _
        (join-Printable _
          (member_texts-Printable _ (sort_members-Printable _ (serialize_object-Printable fs h))))
        (omega arith, tt),
  )

  serialize_array-Printable : (xs : Items) → HasPlainItems xs → AllPrintable (serialize_array xs)
  serialize_array-Printable nil h = tt
  serialize_array-Printable (cons x xs) (p, h) =
      (serialize-Printable x p, serialize_array-Printable xs h)

  serialize_object-Printable :
      (fs : Fields) → HasPlainFields fs → ValuesPrintable (serialize_object fs)
  serialize_object-Printable end h = tt
  serialize_object-Printable (field k v fs) (p, h) =
      (serialize-Printable v p, serialize_object-Printable fs h)

-- Canonical JSON holds no unit below 32, which are JSON's control characters and the line ends among them,
-- where the runtime prints a number that is not whole or is negative without one.
pub canonical_json-Printable : (v : Json) → HasPlainNumbers v → IsPrintable (canonical_json v)
unfolding canonical_json
canonical_json-Printable v h = serialize-Printable v h
