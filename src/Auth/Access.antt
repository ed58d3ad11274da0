-- ===== src/Auth/Access.antt =====
-- Who may enter a private area.
use web_comunidad_solar.Prelude.{
  ℕ, ◌⊎◌, ap, ◌∙◌, All, ◌++◌, ◌==◌, false, trim, ◌≡◌, refl, sym, ◌↔◌, inl, inr, arith, true, false,
  Option, none, some, List, [], ◌∷◌, map, Text, ◌===◌, ===_refl, eq_of_===, member, is_empty, Some,
  Bool-cases, subst,
}
use web_comunidad_solar.Auth.{
  Runtime, Identity, PrivateArea, socios, equipo, manganafer, AccessEnv, allowed, is_separator,
  onto_first, or_empty, access_variable, decide, split_entries, non_empty, normalize_email,
  configured_emails, resolve_private_access,
}

decide_iff :
    (es : List Text) (email : Text) → (decide es email ≡ allowed) ↔ (member email es ≡ true)
decide_iff [] email = (λ h. cc, λ h. cc)
decide_iff (e ∷ es) email = ground arith

member-non_empty :
    (t : Text) (ts : List Text)
    → (member t (non_empty ts) ≡ true) ↔ ((member t ts ≡ true) × (is_empty t ≡ false))
member-non_empty t [] = ground arith
member-non_empty t (u ∷ ts) = elim (Bool-cases (t === u)) [
  | inl e ↦
      (let same = subst (λ x. is_empty x ≡ is_empty t) (eq_of_=== t u e) refl in
        ground (arith, e, same, member-non_empty t ts))
  | inr e ↦ ground (arith, e, member-non_empty t ts)
]

module _ (f : Text → Text) (t : Text) where
  Some-member : (es : List Text) → member t (map f es) ≡ true → Some (λ e. f e ≡ t) es
  Some-member [] h = cc
  Some-member (e ∷ es) h = elim (Bool-cases (t === f e)) [
    | inl p ↦ inl (sym (eq_of_=== t (f e) p))
    | inr p ↦ inr (Some-member es (ground (arith, p)))
  ]

  member-Some : (es : List Text) → Some (λ e. f e ≡ t) es → member t (map f es) ≡ true
  member-Some [] h = absurd h
  member-Some (e ∷ es) (inl p) = ground (arith, p, ===_refl t)
  member-Some (e ∷ es) (inr s) = ground (arith, member-Some es s)

-- The units that part the entries of a list: a comma, a semicolon and a line feed.
abbrev pub IsSeparator : ℕ → Type 0
IsSeparator c = (c ≡ b',') ⊎ (c ≡ b';') ⊎ (c ≡ 10)

abbrev IsFreeOf : Text → Type 0
IsFreeOf e = All (λ c. IsSeparator c → ⊥) e

-- A text is the entries with one separator between each and the next.
abbrev pub IsJoined : List Text → Text → Type 0
IsJoined [] t = ⊥
IsJoined (e ∷ []) t = (t ≡ e) × IsFreeOf e
IsJoined (e ∷ f ∷ es) t =
    (c : ℕ) × (rest : Text) × IsSeparator c
    × IsFreeOf e
    × (t ≡ e ++ (c ∷ rest))
    × IsJoined (f ∷ es) rest

is_separator-IsSeparator : (c : ℕ) → is_separator c ≡ true → IsSeparator c
is_separator-IsSeparator c h = elim (Bool-cases (c == b',')) [
  | inl comma ↦ inl (ground (arith, comma))
  | inr more ↦ elim (Bool-cases (c == b';')) [
    | inl semicolon ↦ inr (inl (ground (arith, semicolon)))
    | inr last ↦ inr (inr (ground (arith, h, more, last)))
  ]
]

IsSeparator-is_separator : (c : ℕ) → IsSeparator c → is_separator c ≡ true
IsSeparator-is_separator c (inl e) = ground (arith, e)
IsSeparator-is_separator c (inr (inl e)) = ground (arith, e)
IsSeparator-is_separator c (inr (inr e)) = ground (arith, e)

no_separator : (c : ℕ) → (IsSeparator c → ⊥) → is_separator c ≡ false
no_separator c h = elim (Bool-cases (is_separator c)) [
  | inl yes_it_is ↦ absurd (h (is_separator-IsSeparator c yes_it_is))
  | inr not_one ↦ not_one
]

onto_first-IsJoined :
    (c : ℕ) (es : List Text) (t : Text)
    → (IsSeparator c → ⊥)
    → IsJoined es t
    → IsJoined (onto_first c es) (c ∷ t)
onto_first-IsJoined c [] t h j = absurd j
onto_first-IsJoined c (e ∷ []) t h (same, free) = (ap (λ x. c ∷ x) same, (h, free))
onto_first-IsJoined c (e ∷ f ∷ es) t h (d, rest, sep, free, same, j) =
    (d, rest, sep, (h, free), ap (λ x. c ∷ x) same, j)

starts_blank :
    (c : ℕ) (es : List Text) (t : Text) → IsSeparator c → IsJoined es t → IsJoined ([] ∷ es) (c ∷ t)
starts_blank c [] t s j = absurd j
starts_blank c (e ∷ es) t s j = (c, t, s, tt, refl, j)

split_entries-IsJoined : (t : Text) → IsJoined (split_entries t) t
split_entries-IsJoined [] = (refl, tt)
split_entries-IsJoined (c ∷ t) = elim (Bool-cases (is_separator c)) [
  | inl s ↦
      rw s (
        starts_blank c (split_entries t) t (is_separator-IsSeparator c s)
          (split_entries-IsJoined t))
  | inr s ↦ rw s (
      onto_first-IsJoined c (split_entries t) t
        (λ k. absurd (ground (arith, s, IsSeparator-is_separator c k))) (split_entries-IsJoined t))
]

split_entries_alone : (e : Text) → IsFreeOf e → split_entries e ≡ e ∷ []
split_entries_alone [] h = refl
split_entries_alone (c ∷ e) (h, free) = rw (no_separator c h, split_entries_alone e free) refl

split_entries_first :
    (e : Text) (c : ℕ) (rest : Text)
    → IsFreeOf e
    → IsSeparator c
    → split_entries (e ++ (c ∷ rest)) ≡ e ∷ split_entries rest
split_entries_first [] c rest h s = rw (IsSeparator-is_separator c s) refl
split_entries_first (d ∷ e) c rest (h, free) s =
    rw (no_separator d h, split_entries_first e c rest free s) refl

IsJoined-split_entries : (es : List Text) (t : Text) → IsJoined es t → split_entries t ≡ es
IsJoined-split_entries [] t j = absurd j
IsJoined-split_entries (e ∷ []) t (same, free) = ap split_entries same ∙ split_entries_alone e free
IsJoined-split_entries (e ∷ f ∷ es) t (c, rest, s, free, same, j) =
    ap split_entries same
    ∙ split_entries_first e c rest free s
    ∙ ap (λ x. e ∷ x) (IsJoined-split_entries (f ∷ es) rest j)

-- White space around an address and its upper case are set aside.
abbrev pub plain_address : Runtime → Text → Text
plain_address rt t = rt.to_lower_case (trim t)

-- Some entry of a list is the address of the identity, which is not blank.
abbrev pub IsNamed : Runtime → Text → Identity → Type 0
IsNamed rt t who =
    ((entries : List Text) × IsJoined entries t
      × Some (λ entry. plain_address rt entry ≡ plain_address rt who.email) entries)
    × (is_empty (plain_address rt who.email) ≡ false)

abbrev pub list_of_area : PrivateArea → AccessEnv → Option Text
list_of_area socios env = env.socios_allowed_emails
list_of_area equipo env = env.team_allowed_emails
list_of_area manganafer env = env.manganafer_allowed_emails

-- The area's own list, which is empty where it is not set, names the identity.
abbrev pub IsListed : Runtime → PrivateArea → AccessEnv → Identity → Type 0
IsListed rt area env who = IsNamed rt (or_empty (list_of_area area env)) who

abbrev IsEntered : Runtime → PrivateArea → AccessEnv → Identity → Type 0
IsEntered rt area env who =
    Some (λ entry. normalize_email rt entry ≡ normalize_email rt who.email)
      (split_entries (or_empty (access_variable area env)))
    × (is_empty (normalize_email rt who.email) ≡ false)

resolve_private_access-IsEntered :
    (rt : Runtime) (area : PrivateArea) (env : AccessEnv) (who : Identity)
    → (resolve_private_access rt area (some who) env ≡ allowed) ↔ IsEntered rt area env who
unfolding resolve_private_access configured_emails
resolve_private_access-IsEntered rt area env who =
    let t = normalize_email rt who.email in
    let es = split_entries (or_empty (access_variable area env)) in
    let emails = map (normalize_email rt) es in
    let d = decide_iff (non_empty emails) t in
    let m = member-non_empty t emails in
    (
      λ h. let (p, q) = m.0 (d.0 h) in (Some-member (normalize_email rt) t es p, q),
      λ (s, q). d.1 (m.1 (member-Some (normalize_email rt) t es s, q)),
    )

access_variable_lem :
    (area : PrivateArea) (env : AccessEnv) → access_variable area env ≡ list_of_area area env
access_variable_lem socios env = refl
access_variable_lem equipo env = refl
access_variable_lem manganafer env = refl

IsEntered-IsListed :
    (rt : Runtime) (area : PrivateArea) (env : AccessEnv) (who : Identity)
    → IsEntered rt area env who ↔ IsListed rt area env who
unfolding normalize_email
IsEntered-IsListed rt area env who =
    let list = or_empty (access_variable area env) in
    let same = ap or_empty (access_variable_lem area env) in
    (
      λ (s, q).
          subst (λ t. IsNamed rt t who) same
            ((split_entries list, split_entries-IsJoined list, s), q),
      λ ((entries, joined, s), q).
          let parts = ap split_entries same ∙ IsJoined-split_entries entries _ joined in
          (
            subst (λ es. Some (λ entry. plain_address rt entry ≡ plain_address rt who.email) es)
                (sym parts) s,
            q,
          ),
    )

IsListed-resolve_private_access :
    (rt : Runtime) (area : PrivateArea) (env : AccessEnv) (who : Identity)
    → (resolve_private_access rt area (some who) env ≡ allowed) ↔ IsListed rt area env who
IsListed-resolve_private_access rt area env who =
    let e = resolve_private_access-IsEntered rt area env who in
    let l = IsEntered-IsListed rt area env who in (λ h. l.0 (e.0 h), λ k. e.1 (l.1 k))

nobody_allowed :
    (rt : Runtime) (area : PrivateArea) (env : AccessEnv)
    → resolve_private_access rt area none env ≡ allowed
    → ⊥
unfolding resolve_private_access
nobody_allowed rt area env h = cc

-- A private area is open to exactly the signed-in people whom an entry of its own list names: the
-- entries are parted by commas, semicolons and line feeds, and an address is compared without white space
-- around it and without regard to upper case. A blank address is never let in.
pub resolve_private_access-IsListed :
    (rt : Runtime) (area : PrivateArea) (identity : Option Identity) (env : AccessEnv)
    → (resolve_private_access rt area identity env ≡ allowed)
      ↔ ((who : Identity) × (identity ≡ some who) × IsListed rt area env who)
resolve_private_access-IsListed rt area none env =
    (λ h. absurd (nobody_allowed rt area env h), λ (who, e, l). cc)
resolve_private_access-IsListed rt area (some who) env = (
  λ h. (who, refl, (IsListed-resolve_private_access rt area env who).0 h),
  λ (other, e, l).
      subst (λ x. resolve_private_access rt area x env ≡ allowed) (sym e)
        ((IsListed-resolve_private_access rt area env other).1 l),
)
