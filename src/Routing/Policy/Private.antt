-- ===== src/Routing/Policy/Private.antt =====
-- The headers of private pages.
use web_comunidad_solar.Prelude.{
  ◌≡◌, refl, sym, subst, arith, inl, inr, true, false, Option, none, some, [], ◌∷◌, Text, codes,
  ◌===◌, ===_refl, eq_of_===, starts_with, if◌then◌else◌, Bool-cases,
}
use web_comunidad_solar.Routing.Web.{Headers, Request, Response, get, has, set, delete}
use web_comunidad_solar.Routing.Policy.{
  content_type, or_empty, normalize_worker_response, normalize_astro_static_html_response,
  private_response_headers, needs_private_response_headers, set_missing, robots_normalized,
  response_with_private_headers, apply_response_policy, wrangler_static_asset_cache_control,
}

abbrev pub or_else : Option Text → Option Text → Option Text
or_else none o = o
or_else (some t) o = some t

unequal : (m n k : Text) → (m === n) ≡ false → (n === k) ≡ true → (m === k) ≡ false
unequal m n k h e = subst (λ t. (m === t) ≡ false) (eq_of_=== n k e) h

get-delete : (m n : Text) (hs : Headers) → (m === n) ≡ false → get m (delete n hs) ≡ get m hs
get-delete m n [] h = refl
get-delete m n ((k, v) ∷ hs) h = elim (Bool-cases (n === k)) [
  | inl e ↦ ground (arith, e, unequal m n k h e, get-delete m n hs h)
  | inr e ↦ ground (arith, e, get-delete m n hs h)
]

get-delete_same : (n : Text) (hs : Headers) → get n (delete n hs) ≡ none
get-delete_same n [] = refl
get-delete_same n ((k, v) ∷ hs) = ground (arith, get-delete_same n hs)

-- Setting a header leaves the others as they were,
get-set : (m n v : Text) (hs : Headers) → (m === n) ≡ false → get m (set n v hs) ≡ get m hs
get-set m n v [] h = ground arith
get-set m n v ((k, w) ∷ hs) h = elim (Bool-cases (n === k)) [
  | inl e ↦ ground (arith, e, unequal m n k h e, get-delete m n hs h)
  | inr e ↦ ground (arith, e, get-set m n v hs h)
]

-- and its own reads as the value set.
get-set_same : (n v : Text) (hs : Headers) → get n (set n v hs) ≡ some v
get-set_same n v [] = ground (arith, ===_refl n)
get-set_same n v ((k, w) ∷ hs) =
    ground (arith, ===_refl n, get-delete_same n hs, get-set_same n v hs)

has-get : (n : Text) (hs : Headers) → has n hs ≡ false → get n hs ≡ none
has-get n [] h = refl
has-get n ((k, v) ∷ hs) h = ground (arith, has-get n hs)

or_else_present :
    (n : Text) (hs : Headers) (o : Option Text) → has n hs ≡ true → or_else (get n hs) o ≡ get n hs
or_else_present n [] o h = cc
or_else_present n ((k, v) ∷ hs) o h = ground (arith, or_else_present n hs o)

abbrev pub first_value : Text → Headers → Option Text
first_value m [] = none
first_value m ((n, v) ∷ ps) = if m === n then some v else first_value m ps

or_else-none : (o : Option Text) → or_else o none ≡ o
or_else-none none = refl
or_else-none (some t) = refl

MissingSet : Text → Headers → Headers → Type 0
MissingSet m ps hs = get m (set_missing hs ps) ≡ or_else (get m hs) (first_value m ps)

present-MissingSet :
    (m n v : Text) (ps hs : Headers)
    → has n hs ≡ true
    → MissingSet m ps hs
    → MissingSet m ((n, v) ∷ ps) hs
unfolding MissingSet
present-MissingSet m n v ps hs p h = elim (Bool-cases (m === n)) [
  | inl e ↦
      (let q =
          subst (λ t. (o : Option Text) → or_else (get t hs) o ≡ get t hs) (sym (eq_of_=== m n e))
            (λ o. or_else_present n hs o p) in
        ground (arith, e, p, h, q (some v), q (first_value m ps)))
  | inr e ↦ ground (arith, e, p, h)
]

absent-MissingSet :
    (m n v : Text) (ps hs : Headers)
    → has n hs ≡ false
    → MissingSet m ps (set n v hs)
    → MissingSet m ((n, v) ∷ ps) hs
unfolding MissingSet
absent-MissingSet m n v ps hs p h = elim (Bool-cases (m === n)) [
  | inl e ↦
      (let q =
          subst (λ t. get t (set n v hs) ≡ some v) (sym (eq_of_=== m n e)) (get-set_same n v hs) in
        let r = subst (λ t. get t hs ≡ none) (sym (eq_of_=== m n e)) (has-get n hs p) in
        ground (arith, e, p, h, q, r))
  | inr e ↦ ground (arith, e, p, h, get-set m n v hs e)
]

set_missing-MissingSet : (m : Text) (ps hs : Headers) → MissingSet m ps hs
unfolding MissingSet
set_missing-MissingSet m [] hs = sym (or_else-none (get m hs))
set_missing-MissingSet m ((n, v) ∷ ps) hs = elim (Bool-cases (has n hs)) [
  | inl e ↦ present-MissingSet m n v ps hs e (set_missing-MissingSet m ps hs)
  | inr e ↦ absent-MissingSet m n v ps hs e (set_missing-MissingSet m ps (set n v hs))
]

-- On a private page a header that the normalized response has reads as it does there, and one that
-- it lacks reads as the private header of that name, or is absent if there is none.
pub apply_response_policy-private :
    (q : Request) (r : Response) (name : Text)
    → needs_private_response_headers q ≡ true
    → get name (apply_response_policy q r).headers
      ≡ or_else
          (get name (normalize_worker_response q r).headers)
          (first_value name private_response_headers)
unfolding apply_response_policy response_with_private_headers MissingSet
apply_response_policy-private q r name h =
    let m =
      set_missing-MissingSet name private_response_headers
        (normalize_worker_response q r).headers in
    ground (arith, h, m)

static-normalized :
    (r : Response)
    → starts_with (or_empty (content_type r)) (codes "text/html") ≡ true
    → get (codes "cache-control") r.headers ≡ some wrangler_static_asset_cache_control
    → get (codes "cache-control") (normalize_astro_static_html_response r).headers ≡ none
unfolding normalize_astro_static_html_response
static-normalized r t c = ground (
  arith,
  t,
  c,
  ===_refl wrangler_static_asset_cache_control,
  get-delete_same (codes "cache-control") r.headers,
)

robots_normalized-cache_control :
    (q : Request) (r : Response)
    → get (codes "cache-control") (robots_normalized q r).headers
      ≡ get (codes "cache-control") r.headers
robots_normalized-cache_control q r = ground (
  arith,
  get-set (codes "cache-control") (codes "content-type") (codes "text/plain") r.headers refl,
)

-- The HTML response of a private page that carries the cache header of static assets leaves with the
-- private cache header in its place.
pub apply_response_policy-static_private :
    (q : Request) (r : Response)
    → needs_private_response_headers q ≡ true
    → starts_with (or_empty (content_type r)) (codes "text/html") ≡ true
    → get (codes "cache-control") r.headers ≡ some wrangler_static_asset_cache_control
    → get (codes "cache-control") (apply_response_policy q r).headers
      ≡ some (codes "private, no-store")
unfolding normalize_worker_response
apply_response_policy-static_private q r h t c =
    let s = normalize_astro_static_html_response r in
    let e = apply_response_policy-private q r (codes "cache-control") h in
    rw (e, robots_normalized-cache_control q s, static-normalized r t c) refl
