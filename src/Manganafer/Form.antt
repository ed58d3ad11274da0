-- ===== src/Manganafer/Form.antt =====
-- src/lib/manganafer/interest.ts: the handler of the public form.
pub mod Stored
use web_comunidad_solar.Prelude.{
  ℕ, ◌+◌, Bool, true, false, not, Option, none, some, List, [], ◌∷◌, ◌++◌, Text, codes, ltb, length,
  is_empty, if◌then◌else◌,
}
use web_comunidad_solar.Json.{Json, null, boolean, nat, number, string, object, field, end}
use web_comunidad_solar.Manganafer.Interest.{
  InterestKind, ManganaferInterest, InterestValidationResult, valid, invalid, text, field_value,
  validate_interest_payload,
}

-- The bytes of a request body, as its reader hands them out; the stream may break off.
pub data Stream : Type 0 where
  done broken : Stream
  chunk : List ℕ → Stream → Stream

pub record InterestRequest : Type 0 where
  pub content_length : Option Text
  pub body : Option Stream

pub data RequestBody : Type 0 where
  body : List ℕ → RequestBody
  too_large invalid_body : RequestBody

-- A response with a JSON body, or with none.
pub record FormResponse : Type 0 where
  pub status : ℕ
  pub value : Option Json

abbrev pub or_zero : Option Text → Text
or_zero none = codes "0"
or_zero (some t) = t

-- What the handler takes from the runtime and from its caller.
pub record Dependencies : Type 0 where
  -- `Number(text) > bound`
  pub number_above : Text → ℕ → Bool
  -- `new TextDecoder().decode(bytes)`
  pub decode : List ℕ → Text
  -- `JSON.parse`; `none` where it throws
  pub json_parse : Text → Option Json
  -- `text.toLowerCase()`
  pub to_lower_case : Text → Text
  -- `ensureStorage`: whether it succeeds
  pub ensure_storage : Bool
  -- `persistInterest`: the number and the kind of what was stored; `none` where it fails
  pub persist_interest : ManganaferInterest → Option (ℕ × Text)

abbrev pub maximum_request_bytes : ℕ
maximum_request_bytes = 24000

-- The reading loop up to a number of bytes, with the bytes read so far.
unfoldable pub read_chunks : ℕ → List ℕ → Stream → RequestBody
read_chunks limit bytes done = body bytes
read_chunks limit bytes broken = invalid_body
read_chunks limit bytes (chunk value more) =
    let rest = read_chunks limit (bytes ++ value) more in
    if ltb limit (length bytes + length value) then too_large else rest

unfoldable pub read_request_body : Option Stream → RequestBody
read_request_body none = invalid_body
read_request_body (some stream) = read_chunks maximum_request_bytes [] stream

abbrev pub json_response : ℕ → Json → FormResponse
json_response status value = record { status = status; value = some value }

abbrev not_ok : Text → Json
not_ok error =
    object (field (codes "ok") (boolean false) (field (codes "error") (string error) end))

abbrev bad_request : Text → FormResponse
bad_request error = json_response 400 (not_ok error)

abbrev bad_field : Text → Text → FormResponse
bad_field error name = json_response 400 (
    object (
      field (codes "ok") (boolean false)
        (field (codes "error") (string error) (field (codes "field") (string name) end))))

abbrev unreadable : FormResponse
unreadable = bad_request (codes "No hemos podido leer el formulario.")

abbrev payload_too_large : FormResponse
payload_too_large = json_response 413 (not_ok (codes "La solicitud es demasiado grande."))

abbrev not_stored : FormResponse
not_stored =
    json_response 500
      (not_ok (codes "No hemos podido guardar tu solicitud. Inténtalo de nuevo en unos minutos."))

abbrev stored_as : Option (ℕ × Text) → FormResponse
stored_as none = not_stored
stored_as (some (id, kind)) = json_response 201 (
    object (
      field (codes "ok") (boolean true)
        (field (codes "id") (number (nat id)) (field (codes "kind") (string kind) end))))

module _ (d : Dependencies) where
  -- The response, and the interests that `persistInterest` was called with.
  abbrev store : InterestValidationResult → FormResponse × List ManganaferInterest
  store (invalid error name) = (bad_field error name, [])
  store (valid interest) =
      if d.ensure_storage
      then (stored_as (d.persist_interest interest), interest ∷ [])
      else (not_stored, [])

  abbrev handle_fields : Json → FormResponse × List ManganaferInterest
  handle_fields payload =
      if is_empty (text (field_value payload (codes "website")) 200)
      then store (validate_interest_payload d.to_lower_case payload)
      else (json_response 201 (object (field (codes "ok") (boolean true) end)), [])

  abbrev handle_payload : Option Json → FormResponse × List ManganaferInterest
  handle_payload none = (unreadable, [])
  handle_payload (some null) = (record { status = 500; value = none }, [])
  handle_payload (some payload) = handle_fields payload

  abbrev handle_body : RequestBody → FormResponse × List ManganaferInterest
  handle_body too_large = (payload_too_large, [])
  handle_body invalid_body = (unreadable, [])
  handle_body (body bytes) = handle_payload (d.json_parse (d.decode bytes))

  unfoldable pub handle_interest_request : InterestRequest → FormResponse × List ManganaferInterest
  handle_interest_request request =
      if d.number_above (or_zero request.content_length) maximum_request_bytes
      then (payload_too_large, [])
      else handle_body (read_request_body request.body)
