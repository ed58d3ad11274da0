-- ===== src/Routing/Legacy/Lookup.antt =====
-- The normal form of a path, and what a look-up in the redirects can return.
use web_comunidad_solar.Prelude.{
  ℕ, ◌≡◌, refl, sym, arith, Bool, true, false, none, some, List, [], ◌∷◌, ◌++◌, Text, codes, ◌===◌,
  eq_of_===, ◌==◌, all, if◌then◌else◌, inl, inr, Bool-cases, Option-cases, and-true,
}
use web_comunidad_solar.Routing.Redirects.{LegacyRedirect}
use web_comunidad_solar.Routing.Legacy.{
  lower, to_lower_case, keep_before, strip_slashes, normalize_legacy_path, lookup,
}

lower-lower : (c : ℕ) → lower (lower c) ≡ lower c
lower-lower c = ground arith

lower-slash : (c : ℕ) → (lower c == b'/') ≡ (c == b'/')
lower-slash c = ground arith

to_lower_case-idempotent : (t : Text) → to_lower_case (to_lower_case t) ≡ to_lower_case t
to_lower_case-idempotent [] = refl
to_lower_case-idempotent (c ∷ t) = ground (arith, lower-lower c, to_lower_case-idempotent t)

keep_before-lower :
    (c : ℕ) (t : Text) → keep_before (lower c) (to_lower_case t) ≡ to_lower_case (keep_before c t)
keep_before-lower c [] = ground (arith, lower-slash c)
keep_before-lower c (d ∷ t) = refl

-- Stripping and lowering commute.
strip_slashes-to_lower_case :
    (t : Text) → strip_slashes (to_lower_case t) ≡ to_lower_case (strip_slashes t)
strip_slashes-to_lower_case [] = refl
strip_slashes-to_lower_case (c ∷ t) =
    rw (strip_slashes-to_lower_case t) (keep_before-lower c (strip_slashes t))

keep_before_strip :
    (c : ℕ) (t : Text) → strip_slashes t ≡ t → strip_slashes (keep_before c t) ≡ keep_before c t
keep_before_strip c [] h = ground arith
keep_before_strip c (d ∷ t) h = ground (arith, h)

strip_slashes-idempotent : (t : Text) → strip_slashes (strip_slashes t) ≡ strip_slashes t
strip_slashes-idempotent [] = refl
strip_slashes-idempotent (c ∷ t) =
    keep_before_strip c (strip_slashes t) (strip_slashes-idempotent t)

strip_slashes-slash : (t : Text) → strip_slashes (t ++ b'/' ∷ []) ≡ strip_slashes t
strip_slashes-slash [] = refl
strip_slashes-slash (c ∷ t) = rw (strip_slashes-slash t)

-- The normal form of a path is its own normal form.
pub normalize_legacy_path-idempotent :
    (t : Text) → normalize_legacy_path (normalize_legacy_path t) ≡ normalize_legacy_path t
unfolding normalize_legacy_path
normalize_legacy_path-idempotent t = ground (
  arith,
  strip_slashes-to_lower_case (strip_slashes t),
  strip_slashes-idempotent t,
  to_lower_case-idempotent (strip_slashes t),
)

slash_only : (t : Text) → (t === []) ≡ false → ((t ++ b'/' ∷ []) === codes "/") ≡ false
slash_only [] h = cc
slash_only (c ∷ []) h = ground arith
slash_only (c ∷ d ∷ t) h = ground arith

lower_only : (t : Text) → (to_lower_case t === codes "/") ≡ (t === codes "/")
lower_only [] = refl
lower_only (c ∷ []) = ground (arith, lower-slash c)
lower_only (c ∷ d ∷ t) = ground arith

-- Upper case makes no difference, and neither does a slash more at the end of a path that is not
-- empty and not the root.
pub normalize_legacy_path-same :
    (t : Text)
    → (t === codes "/") ≡ false
    → (t === []) ≡ false
    → (normalize_legacy_path (to_lower_case t) ≡ normalize_legacy_path t)
      × (normalize_legacy_path (t ++ b'/' ∷ []) ≡ normalize_legacy_path t)
unfolding normalize_legacy_path
normalize_legacy_path-same t h k = (
  ground (
    arith,
    lower_only t,
    strip_slashes-to_lower_case t,
    to_lower_case-idempotent (strip_slashes t),
  ),
  ground (arith, slash_only t k, strip_slashes-slash t),
)

lookup-entry :
    (ok : LegacyRedirect → Bool) (key : Text) (r : LegacyRedirect) (to : Text)
    → ok r ≡ true
    → (if key === r.from then some r.to else none) ≡ some to
    → (q : LegacyRedirect) × (q.from ≡ key) × (q.to ≡ to) × (ok q ≡ true)
lookup-entry ok key r to h k = elim (Bool-cases (key === r.from)) [
  | inl e ↦ (r, sym (eq_of_=== key r.from e), ground (arith, e), h)
  | inr e ↦ absurd (ground (arith, e))
]

-- What a look-up returns stands in an entry of the key, and passes every test that all entries pass.
pub lookup-all :
    (ok : LegacyRedirect → Bool) (key : Text) (rs : List LegacyRedirect) (to : Text)
    → all ok rs ≡ true
    → lookup key rs ≡ some to
    → (r : LegacyRedirect) × (r.from ≡ key) × (r.to ≡ to) × (ok r ≡ true)
lookup-all ok key [] to h k = absurd (ground arith)
lookup-all ok key (r ∷ rs) to h k =
    let (p, q) = and-true (ok r) (all ok rs) h in
    elim (Option-cases (lookup key rs)) [
      | inl e ↦ lookup-entry ok key r to p (ground (arith, e))
      | inr (a, e) ↦ lookup-all ok key rs to q (ground (arith, e))
    ]
