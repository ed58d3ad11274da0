-- ===== src/Ingest/Owner.antt =====
-- The owner file of a lock (src/ingest/state-store.ts): its JSON, and when it is stale.
pub mod Abandoned
use web_comunidad_solar.Prelude.{
  ℕ, ◌+◌, ◌*◌, Bool, false, not, Option, none, some, List, [], ◌∷◌, Text, codes, ◌===◌, ◌&&◌, ltb,
  is_empty,
}
use web_comunidad_solar.Json.{Json, nat, number, string, Fields, object, field, end}
use web_comunidad_solar.Json.Decode.{
  ◌>>=◌, ◌>>◌, guard, own, has_exact_keys, as_object, as_string, as_positive,
}
use web_comunidad_solar.Ingest.Platform.{Platform}
use web_comunidad_solar.Ingest.Journal.{is_date}

pub record LockOwner : Type 0 where
  pub pid : ℕ
  pub hostname : Text
  pub created_at : Text
  pub token : Option Text

abbrev token_field : Option Text → Fields
token_field none = end
token_field (some t) = field (codes "token") (string t) end

unfoldable pub owner_json : LockOwner → Json
owner_json o = object (
    field (codes "pid") (number (nat o.pid)) (
      field (codes "hostname") (string o.hostname)
        (field (codes "createdAt") (string o.created_at) (token_field o.token))))

-- `owner.token`: absent, or a value that has to be a string
abbrev owner_token : Option Json → Option (Option Text)
owner_token none = some none
owner_token (some (string t)) = some (some t)
owner_token _ = none

abbrev owner_keys : Option Json → List Text
owner_keys none = codes "createdAt" ∷ codes "hostname" ∷ codes "pid" ∷ []
owner_keys (some v) = codes "createdAt" ∷ codes "hostname" ∷ codes "pid" ∷ codes "token" ∷ []

unfoldable pub decode_owner : Platform → Json → Option LockOwner
decode_owner p value = do
  fs ← as_object value
  let token = own (codes "token") fs
  guard (has_exact_keys fs (owner_keys token))
  pid ← as_positive (own (codes "pid") fs)
  hostname ← as_string (own (codes "hostname") fs)
  guard (not (is_empty hostname))
  created ← as_string (own (codes "createdAt") fs)
  guard (is_date (p.date_parse created))
  stated ← owner_token token
  some (record { pid = pid; hostname = hostname; created_at = created; token = stated })

-- `parseLockOwner`; `none` where it throws
unfoldable pub parse_lock_owner : Platform → Text → Option LockOwner
unfolding decode_owner
parse_lock_owner p bytes = do value ← p.json_parse bytes; decode_owner p value

-- 30 minutes in milliseconds
abbrev pub stale_lock_ms : ℕ
stale_lock_ms = 30 * 60 * 1000

-- A comparison with `NaN` does not hold.
abbrev older_than : ℕ → Option ℕ → Option ℕ → Bool
older_than ms (some then_ms) (some now_ms) = ltb (then_ms + ms) now_ms
older_than ms _ _ = false

unfoldable pub is_recovery_eligible : Platform → LockOwner → Text → Text → Bool
is_recovery_eligible p owner now hostname =
    older_than stale_lock_ms (p.date_parse owner.created_at) (p.date_parse now)
    && owner.hostname === hostname
