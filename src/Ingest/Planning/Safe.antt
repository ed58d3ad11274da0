-- ===== src/Ingest/Planning/Safe.antt =====
-- The safety of the paths that are planned for a well-formed request.
use web_comunidad_solar.Prelude.{
  ℕ, ◌≡◌, refl, arith, Bool, true, false, and-true, Bool-cases, inl, inr, List, [], ◌∷◌, ◌++◌, Text,
  codes, ◌===◌, ◌==◌, all, any, split, push_first, IsFree, split_of_IsFree,
}
use web_comunidad_solar.Ingest.Schema.{is_slug, is_slug_unit, are_path_segments, is_target_path}
use web_comunidad_solar.Ingest.Planning.Outputs.{
  is_safe_relative_path, is_unsafe_segment, is_unsafe_unit, route_path,
}

-- `b` stands behind the last of the texts.
abbrev extend_last : Text → List Text → List Text
extend_last b [] = b ∷ []
extend_last b (l ∷ []) = (l ++ b) ∷ []
extend_last b (l ∷ m ∷ ls) = l ∷ extend_last b (m ∷ ls)

extend_last-push_first :
    (c : ℕ) (b l : Text) (ls : List Text)
    → push_first c (extend_last b (l ∷ ls)) ≡ extend_last b ((c ∷ l) ∷ ls)
extend_last-push_first c b l [] = refl
extend_last-push_first c b l (m ∷ ls) = refl

abbrev IsParted : ℕ → Text → Type 0
IsParted sep t = (l : Text) × (ls : List Text) × (split sep t ≡ l ∷ ls)

split-IsParted : (sep : ℕ) (t : Text) → IsParted sep t
split-IsParted sep [] = ([], [], refl)
split-IsParted sep (c ∷ t) =
    let (l, ls, e) = split-IsParted sep t in
    elim (Bool-cases (c == sep)) [
      | inl here ↦ ([], l ∷ ls, ground (arith, here, e))
      | inr away ↦ (c ∷ l, ls, ground (arith, away, e))
    ]

split-append_free :
    (sep : ℕ) (a b : Text) → IsFree sep b → split sep (a ++ b) ≡ extend_last b (split sep a)
split-append_free sep [] b h = split_of_IsFree sep b h
split-append_free sep (c ∷ a) b h =
    let (l, ls, e) = split-IsParted sep a in
    elim (Bool-cases (c == sep)) [
      | inl here ↦ rw (split-append_free sep a b h, e) (ground (arith, here, e))
      | inr away ↦
          rw (split-append_free sep a b h, e)
            (ground (arith, away, e, extend_last-push_first c b l ls))
    ]

is_slug-safe : (s b : Text) → is_slug s ≡ true → is_unsafe_segment (s ++ b) ≡ false
is_slug-safe [] b h = ground (arith, h)
is_slug-safe (c ∷ s) b h = ground (arith, h)

is_slug-safe_alone : (s : Text) → is_slug s ≡ true → is_unsafe_segment s ≡ false
is_slug-safe_alone [] h = ground (arith, h)
is_slug-safe_alone (c ∷ s) h = ground (arith, h)

extend_last-safe :
    (b s : Text) (ss : List Text)
    → all is_slug (s ∷ ss) ≡ true
    → any is_unsafe_segment (extend_last b (s ∷ ss)) ≡ false
extend_last-safe b s [] h = ground (arith, is_slug-safe s b (ground (arith, h)))
extend_last-safe b s (m ∷ ss) h =
    let (mine, others) = and-true (is_slug s) (all is_slug (m ∷ ss)) h in
    ground (arith, is_slug-safe_alone s mine, extend_last-safe b m ss others)

-- Texts of the units of slugs only.
abbrev are_slug_units : List Text → Bool
are_slug_units ts = all (all is_slug_unit) ts

push_first-units :
    (c : ℕ) (ls : List Text)
    → are_slug_units (push_first c ls) ≡ true
    → (is_slug_unit c ≡ true) × (are_slug_units ls ≡ true)
push_first-units c [] h = (ground (arith, h), refl)
push_first-units c (l ∷ ls) h = (ground (arith, h), ground (arith, h))

split-units : (t : Text) → are_slug_units (split b'/' t) ≡ true → any is_unsafe_unit t ≡ false
split-units [] h = refl
split-units (c ∷ t) h = elim (Bool-cases (c == b'/')) [
  | inl here ↦ ground (arith, here, split-units t (ground (arith, h, here)))
  | inr away ↦
      let (mine, others) = push_first-units c (split b'/' t) (ground (arith, h, away)) in
      ground (arith, mine, split-units t others)
]

slugs-units : (ss : List Text) → all is_slug ss ≡ true → are_slug_units ss ≡ true
slugs-units [] h = refl
slugs-units (s ∷ ss) h = ground (arith, slugs-units ss (ground (arith, h)), h)

any-append :
    (s t : Text)
    → any is_unsafe_unit s ≡ false
    → any is_unsafe_unit t ≡ false
    → any is_unsafe_unit (s ++ t) ≡ false
any-append [] t h k = k
any-append (c ∷ s) t h k = ground (arith, h, any-append s t (ground (arith, h)) k)

-- What a path of segments is split into.
record IsSegments (ls : List Text) : Type 0 where
  pub head : Text
  pub rest : List Text
  pub split_up : ls ≡ [] ∷ head ∷ rest
  pub slugs : all is_slug (head ∷ rest) ≡ true

are_path_segments-IsSegments : (ls : List Text) → are_path_segments ls ≡ true → IsSegments ls
are_path_segments-IsSegments [] h = absurd (ground (arith, h))
are_path_segments-IsSegments (l ∷ []) h = absurd (ground (arith, h))
are_path_segments-IsSegments ([] ∷ s ∷ ss) h = record {
  head = s;
  rest = ss;
  split_up = refl;
  slugs = ground (arith, h);
}
are_path_segments-IsSegments ((c ∷ l) ∷ s ∷ ss) h = absurd (ground (arith, h))

astro-IsFree : IsFree b'/' (codes ".astro")
astro-IsFree = ground arith

segments-safe :
    (t : Text)
    → IsSegments (split b'/' t)
    → is_safe_relative_path (codes "src/pages" ++ t ++ codes ".astro") ≡ true
unfolding is_safe_relative_path
segments-safe t p =
    let units : any is_unsafe_unit t ≡ false =
      split-units t (rw p.split_up (slugs-units (p.head ∷ p.rest) p.slugs)) in
    let parts : split b'/' (t ++ codes ".astro")
        ≡ [] ∷ extend_last (codes ".astro") (p.head ∷ p.rest) =
      rw (split-append_free b'/' t (codes ".astro") astro-IsFree, p.split_up) refl in
    rw parts (
      ground (
        arith,
        any-append t (codes ".astro") units refl,
        extend_last-safe (codes ".astro") p.head p.rest p.slugs,
      ))

pub route_path-safe :
    (t : Text) → is_target_path t ≡ true → is_safe_relative_path (route_path t) ≡ true
unfolding route_path is_target_path is_safe_relative_path
route_path-safe t h = elim (Bool-cases (t === codes "/")) [
  | inl root ↦ rw root refl
  | inr other ↦
      rw other
        (segments-safe t (are_path_segments-IsSegments (split b'/' t) (ground (arith, h, other))))
]

-- A slug stands in a path as one segment.
units-IsFree : (t : Text) → all is_slug_unit t ≡ true → IsFree b'/' t
units-IsFree [] h = tt
units-IsFree (c ∷ t) h = (ground (arith, h), units-IsFree t (ground (arith, h)))

units-safe : (t : Text) → all is_slug_unit t ≡ true → any is_unsafe_unit t ≡ false
units-safe [] h = refl
units-safe (c ∷ t) h = ground (arith, h, units-safe t (ground (arith, h)))

-- What a name and an ending have to be for a path under a directory of slugs to be safe.
pub record IsFileName (t : Text) : Type 0 where
  pub alone : split b'/' t ≡ t ∷ []
  pub segment : is_unsafe_segment t ≡ false
  pub units : any is_unsafe_unit t ≡ false

pub is_slug-IsFileName :
    (s b : Text)
    → is_slug s ≡ true
    → IsFree b'/' b
    → any is_unsafe_unit b ≡ false
    → IsFileName (s ++ b)
is_slug-IsFileName s b h free clean =
    let units : all is_slug_unit s ≡ true = ground (arith, h) in
    record {
      alone =
          rw (split-append_free b'/' s b free, split_of_IsFree b'/' s (units-IsFree s units)) refl;
      segment = is_slug-safe s b h;
      units = any-append s b (units-safe s units) clean;
    }
