-- ===== src/Manganafer/Interest/Validated.antt =====
-- What an accepted interest is like.
use web_comunidad_solar.Prelude.{
  ℕ, zero, suc, take, ap, sym, ◌∙◌, eq_of_===, ◌≤◌, ◌≡◌, refl, ◌⊎◌, inl, inr, arith, Bool, true,
  false, Option, none, some, [], Text, codes, length, length-take, member, is_empty, trim,
  if◌then◌else◌, subst,
}
use web_comunidad_solar.Json.{Json, null, boolean, number, string, array, object}
use web_comunidad_solar.Manganafer.Interest.{
  InterestKind, neighbor, roof, ManganaferInterest, valid, participant_profiles,
  roof_surface_ranges, roof_relationships, text, is_email, is_phone, is_postal_code, field_value,
  is_true, parse_kind, is_neighbor, validate_kind, validate_fields, fields_of, validate_for,
  validate_interest_payload,
}

length-text : (v : Option Json) (n : ℕ) → length (text v n) ≤ n
unfolding text
length-text (some (string t)) n = length-take n (trim t)
length-text none n = ground arith
length-text (some v) n = ground arith

-- The fields are within the lengths that are stored.
pub record IsBounded (i : ManganaferInterest) : Type 0 where
  pub first_name : length i.first_name ≤ 80
  pub last_name : length i.last_name ≤ 120
  pub phone : length i.phone ≤ 40
  pub municipality : length i.municipality ≤ 120
  pub address : length i.address ≤ 240
  pub message : length i.message ≤ 1200

-- The fields that both kinds have are filled in and have their form.
pub record IsFilledIn (i : ManganaferInterest) : Type 0 where
  pub first_name : is_empty i.first_name ≡ false
  pub last_name : is_empty i.last_name ≡ false
  pub email : is_email i.email ≡ true
  pub phone : is_phone i.phone ≡ true
  pub municipality : is_empty i.municipality ≡ false
  pub postal_code : is_postal_code i.postal_code ≡ true

-- A neighbor has a profile and no roof, and a roof has a size and a relationship and no profile.
abbrev pub IsOfKind : ManganaferInterest → Type 0
IsOfKind i =
    ((i.kind ≡ neighbor)
      × (member i.participant_profile participant_profiles ≡ true)
      × (i.roof_surface_range ≡ [])
      × (i.roof_relationship ≡ []))
    ⊎ ((i.kind ≡ roof)
        × (i.participant_profile ≡ [])
        × (member i.roof_surface_range roof_surface_ranges ≡ true)
        × (member i.roof_relationship roof_relationships ≡ true))

-- The text that a payload has under a name, without the white space around it; blank if it has none.
abbrev typed_in : Option Json → Text
typed_in (some (string t)) = trim t
typed_in _ = []

abbrev pub typed : Json → Text → Text
typed payload name = typed_in (field_value payload name)

abbrev pub kind_name : InterestKind → Text
kind_name neighbor = codes "neighbor"
kind_name roof = codes "roof"

-- Each field is the text that the payload has under the name of the field, cut to its stored length; the
-- e-mail address is cut to 180 and then put into lower case.
pub record IsSentIn (lower : Text → Text) (payload : Json) (i : ManganaferInterest) : Type 0 where
  pub kind : take 20 (typed payload (codes "kind")) ≡ kind_name i.kind
  pub first_name : i.first_name ≡ take 80 (typed payload (codes "firstName"))
  pub last_name : i.last_name ≡ take 120 (typed payload (codes "lastName"))
  pub email : i.email ≡ lower (take 180 (typed payload (codes "email")))
  pub phone : i.phone ≡ take 40 (typed payload (codes "phone"))
  pub municipality : i.municipality ≡ take 120 (typed payload (codes "municipality"))
  pub postal_code : i.postal_code ≡ take 5 (typed payload (codes "postalCode"))
  pub address : i.address ≡ take 240 (typed payload (codes "address"))
  pub message : i.message ≡ take 1200 (typed payload (codes "message"))
  pub participant_profile :
      i.kind ≡ neighbor
      → i.participant_profile ≡ take 40 (typed payload (codes "participantProfile"))
  pub roof_surface_range :
      i.kind ≡ roof → i.roof_surface_range ≡ take 40 (typed payload (codes "roofSurfaceRange"))
  pub roof_relationship :
      i.kind ≡ roof → i.roof_relationship ≡ take 40 (typed payload (codes "roofRelationship"))

abbrev pub IsInterest : ManganaferInterest → Type 0
IsInterest i = IsBounded i × IsFilledIn i × IsOfKind i

take_nil : (n : ℕ) → ◌≡◌ {A = Text} [] (take n [])
take_nil zero = refl
take_nil (suc n) = refl

text_lem : (v : Option Json) (n : ℕ) → text v n ≡ take n (typed_in v)
unfolding text
text_lem (some (string t)) n = refl
text_lem none n = take_nil n
text_lem (some null) n = take_nil n
text_lem (some (boolean b)) n = take_nil n
text_lem (some (number m)) n = take_nil n
text_lem (some (array items)) n = take_nil n
text_lem (some (object fs)) n = take_nil n

parse_kind-eq-some : (t : Text) (k : InterestKind) → parse_kind t ≡ some k → t ≡ kind_name k
parse_kind-eq-some t neighbor h = eq_of_=== t (codes "neighbor") (ground (arith, h))
parse_kind-eq-some t roof h = eq_of_=== t (codes "roof") (ground (arith, h))

fields_of-IsBounded :
    (lower : Text → Text) (payload : Json) (kind : InterestKind)
    → IsBounded (fields_of lower payload kind)
unfolding fields_of
fields_of-IsBounded lower payload kind = record {
  first_name = length-text _ 80;
  last_name = length-text _ 120;
  phone = length-text _ 40;
  municipality = length-text _ 120;
  address = length-text _ 240;
  message = length-text _ 1200;
}

-- The fields of the other kind are emptied.
abbrev cut : ManganaferInterest → ManganaferInterest
cut i = record i {
  participant_profile = if is_neighbor i.kind then i.participant_profile else [];
  roof_surface_range = if is_neighbor i.kind then [] else i.roof_surface_range;
  roof_relationship = if is_neighbor i.kind then [] else i.roof_relationship;
}

cut-IsBounded : (i : ManganaferInterest) → IsBounded i → IsBounded (cut i)
cut-IsBounded i b = record {
  first_name = b.first_name;
  last_name = b.last_name;
  phone = b.phone;
  municipality = b.municipality;
  address = b.address;
  message = b.message;
}

cut-IsFilledIn : (i : ManganaferInterest) → IsFilledIn i → IsFilledIn (cut i)
cut-IsFilledIn i f = record {
  first_name = f.first_name;
  last_name = f.last_name;
  email = f.email;
  phone = f.phone;
  municipality = f.municipality;
  postal_code = f.postal_code;
}

kind-cases : (k : InterestKind) → (k ≡ neighbor) ⊎ (k ≡ roof)
kind-cases neighbor = inl refl
kind-cases roof = inr refl

validate_kind-cut :
    (i j : ManganaferInterest) → validate_kind i ≡ valid j → (cut i ≡ j) × IsOfKind (cut i)
unfolding validate_kind
validate_kind-cut i j h = elim (kind-cases i.kind) [
  | inl n ↦ (ground (arith, n), inl (n, ground (arith, n), ground (arith, n), ground (arith, n)))
  | inr n ↦ (ground (arith, n), inr (n, ground (arith, n), ground (arith, n), ground (arith, n)))
]

validate_kind-IsInterest :
    (i j : ManganaferInterest)
    → IsBounded i
    → IsFilledIn i
    → validate_kind i ≡ valid j
    → IsInterest j
validate_kind-IsInterest i j b f h =
    let (same, of_kind) = validate_kind-cut i j h in
    subst IsInterest same (cut-IsBounded i b, cut-IsFilledIn i f, of_kind)

validate_fields-cases :
    (i j : ManganaferInterest) (accepted : Bool)
    → validate_fields i accepted ≡ valid j
    → (accepted ≡ true) × IsFilledIn i × (validate_kind i ≡ valid j)
unfolding validate_fields
validate_fields-cases i j accepted h = (
  ground arith,
  record {
    first_name = ground arith;
    last_name = ground arith;
    email = ground arith;
    phone = ground arith;
    municipality = ground arith;
    postal_code = ground arith;
  },
  ground arith,
)

cut-IsSentIn :
    (lower : Text → Text) (payload : Json) (kind : InterestKind)
    → take 20 (typed payload (codes "kind")) ≡ kind_name kind
    → IsSentIn lower payload (cut (fields_of lower payload kind))
unfolding fields_of
cut-IsSentIn lower payload kind h = record {
  kind = h;
  first_name = text_lem _ 80;
  last_name = text_lem _ 120;
  email = ap lower (text_lem _ 180);
  phone = text_lem _ 40;
  municipality = text_lem _ 120;
  postal_code = text_lem _ 5;
  address = text_lem _ 240;
  message = text_lem _ 1200;
  participant_profile = λ e. rw e (text_lem _ 40);
  roof_surface_range = λ e. rw e (text_lem _ 40);
  roof_relationship = λ e. rw e (text_lem _ 40);
}

validate_for-IsInterest :
    (lower : Text → Text) (payload : Json) (o : Option InterestKind) (i : ManganaferInterest)
    → parse_kind (text (field_value payload (codes "kind")) 20) ≡ o
    → validate_for lower payload o ≡ valid i
    → (is_true (field_value payload (codes "privacyAccepted")) ≡ true)
      × IsSentIn lower payload i
      × IsInterest i
validate_for-IsInterest lower payload none i e h = cc
validate_for-IsInterest lower payload (some kind) i e h =
    let fields = fields_of lower payload kind in
    let accepted = is_true (field_value payload (codes "privacyAccepted")) in
    let (given, f, rest) = validate_fields-cases fields i accepted h in
    let (same, of_kind) = validate_kind-cut fields i rest in
    let named =
      sym (text_lem (field_value payload (codes "kind")) 20) ∙ parse_kind-eq-some _ kind e in
    (
      given,
      subst (λ x. IsSentIn lower payload x) same (cut-IsSentIn lower payload kind named),
      validate_kind-IsInterest fields i (fields_of-IsBounded lower payload kind) f rest,
    )

pub validate_interest_payload-IsInterest :
    (lower : Text → Text) (payload : Json) (i : ManganaferInterest)
    → validate_interest_payload lower payload ≡ valid i
    → (is_true (field_value payload (codes "privacyAccepted")) ≡ true)
      × IsSentIn lower payload i
      × IsInterest i
unfolding validate_interest_payload
validate_interest_payload-IsInterest lower payload i h =
    validate_for-IsInterest lower payload _ i refl h
