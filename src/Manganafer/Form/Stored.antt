-- ===== src/Manganafer/Form/Stored.antt =====
-- What reaches the storage, and how much of a request is read.
use web_comunidad_solar.Prelude.{
  ℕ, ◌+◌, ◌≤◌, ◌≡◌, refl, inl, inr, arith, Bool, true, false, Option, none, some, List, [], ◌∷◌,
  ◌++◌, codes, ltb, length, length-append, append-nil, append_assoc, is_empty, if◌then◌else◌,
  Bool-cases,
}
use web_comunidad_solar.Json.{Json, null, boolean, number, string, array, object}
use web_comunidad_solar.Manganafer.Interest.{
  ManganaferInterest, InterestValidationResult, valid, invalid, text, field_value, is_true,
  validate_interest_payload,
}
use web_comunidad_solar.Manganafer.Interest.Validated.{
  IsSentIn, IsInterest, validate_interest_payload-IsInterest,
}
use web_comunidad_solar.Manganafer.Form.{
  Stream, done, broken, chunk, InterestRequest, RequestBody, body, too_large, invalid_body,
  Dependencies, maximum_request_bytes, read_chunks, read_request_body, store, handle_fields,
  handle_payload, handle_body, handle_interest_request,
}

-- The bytes of a stream that does not break off.
abbrev pub bytes_of : Stream → List ℕ
bytes_of done = []
bytes_of broken = []
bytes_of (chunk value more) = value ++ bytes_of more

abbrev pub is_whole : Stream → Bool
is_whole done = true
is_whole broken = false
is_whole (chunk value more) = is_whole more

pub read_chunks-whole :
    (limit : ℕ) (bytes : List ℕ) (s : Stream)
    → is_whole s ≡ true
    → length bytes ≤ limit
    → read_chunks limit bytes s
      ≡ (if ltb limit (length (bytes ++ bytes_of s)) then too_large else body (bytes ++ bytes_of s))
unfolding read_chunks
read_chunks-whole limit bytes done h k = ground (arith, append-nil bytes)
read_chunks-whole limit bytes broken h k = cc
read_chunks-whole limit bytes (chunk value more) h k =
    elim (Bool-cases (ltb limit (length bytes + length value))) [
      | inl e ↦ ground (
        arith,
        e,
        length-append bytes (value ++ bytes_of more),
        length-append value (bytes_of more),
      )
      | inr e ↦ ground (
        arith,
        e,
        length-append bytes value,
        read_chunks-whole limit (bytes ++ value) more h
            (ground (arith, e, length-append bytes value)),
        append_assoc bytes value (bytes_of more),
      )
    ]

-- A body that does not break off is read whole, however it is cut into chunks, if it has at most as many
-- bytes as are allowed, and is refused as too large if it has more.
pub read_request_body-whole :
    (s : Stream)
    → is_whole s ≡ true
    → read_request_body (some s)
      ≡ (if ltb maximum_request_bytes (length (bytes_of s)) then too_large else body (bytes_of s))
unfolding read_request_body
read_request_body-whole s h = read_chunks-whole maximum_request_bytes [] s h (ground arith)

-- The payload that a request carries, where it is read and parsed.
abbrev pub PayloadOf : Dependencies → InterestRequest → Json → Type 0
PayloadOf d request payload =
    (bytes : List ℕ) × (read_request_body request.body ≡ body bytes)
    × (d.json_parse (d.decode bytes) ≡ some payload)

-- What a call of the storage rests on.
abbrev pub IsFounded : Dependencies → InterestRequest → ManganaferInterest → Type 0
IsFounded d request i =
    (payload : Json) × PayloadOf d request payload
    × (is_empty (text (field_value payload (codes "website")) 200) ≡ true)
    × (is_true (field_value payload (codes "privacyAccepted")) ≡ true)
    × IsSentIn d.to_lower_case payload i
    × IsInterest i

store-calls :
    (d : Dependencies) (v : InterestValidationResult) (i : ManganaferInterest)
    (is : List ManganaferInterest)
    → (store d v).1 ≡ i ∷ is
    → (v ≡ valid i) × (is ≡ [])
store-calls d (invalid e n) i is h = cc
store-calls d (valid j) i is h = ground arith

module _ (d : Dependencies) (i : ManganaferInterest) (is : List ManganaferInterest) where
  fields-calls :
      (payload : Json)
      → (handle_fields d payload).1 ≡ i ∷ is
      → (is_empty (text (field_value payload (codes "website")) 200) ≡ true)
        × (validate_interest_payload d.to_lower_case payload ≡ valid i)
        × (is ≡ [])
  fields-calls payload h =
      elim (Bool-cases (is_empty (text (field_value payload (codes "website")) 200))) [
        | inl e ↦
            (let v = validate_interest_payload d.to_lower_case payload in
              let (p, q) = store-calls d v i is (ground (arith, e)) in (e, p, q))
        | inr e ↦ absurd (ground (arith, e))
      ]

  payload-calls :
      (o : Option Json)
      → (handle_payload d o).1 ≡ i ∷ is
      → (payload : Json) × (o ≡ some payload) × ((handle_fields d payload).1 ≡ i ∷ is)
  payload-calls none h = cc
  payload-calls (some null) h = cc
  payload-calls (some (boolean b)) h = (boolean b, refl, h)
  payload-calls (some (number n)) h = (number n, refl, h)
  payload-calls (some (string t)) h = (string t, refl, h)
  payload-calls (some (array xs)) h = (array xs, refl, h)
  payload-calls (some (object fs)) h = (object fs, refl, h)

  body-calls :
      (b : RequestBody)
      → (handle_body d b).1 ≡ i ∷ is
      → (bytes : List ℕ) × (b ≡ body bytes)
        × ((handle_payload d (d.json_parse (d.decode bytes))).1 ≡ i ∷ is)
  body-calls (body bytes) h = (bytes, refl, h)
  body-calls too_large h = cc
  body-calls invalid_body h = cc

  -- The storage is called at most once for a request, and only with a well-formed interest whose fields
  -- are those of a payload that the request carries, where the payload has the visitor's consent and its
  -- hidden field is blank.
  pub handle_interest_request-IsFounded :
      (request : InterestRequest)
      → (handle_interest_request d request).1 ≡ i ∷ is
      → IsFounded d request i × (is ≡ [])
  unfolding handle_interest_request
  handle_interest_request-IsFounded request h =
      let (bytes, read, more) = body-calls (read_request_body request.body) (ground arith) in
      let (payload, parsed, fields) = payload-calls (d.json_parse (d.decode bytes)) more in
      let (blank, accepted, once) = fields-calls payload fields in
      let (given, own_fields, form) =
        validate_interest_payload-IsInterest d.to_lower_case payload i accepted in
      ((payload, (bytes, read, parsed), blank, given, own_fields, form), once)
