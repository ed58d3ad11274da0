-- ===== src/Ingest/Tests.antt =====
-- A change of two events on disk, the runtime that reads it, and runs of the operations on it.
mod Journals
mod Changes
mod Retries
mod Plans
mod Locks
mod Reads
mod Dossiers
mod Approvals
use web_comunidad_solar.Prelude.{
  ℕ, zero, suc, ◌+◌, ◌%◌, Bool, true, false, Option, none, some, List, [], ◌∷◌, Text, codes, ◌===◌,
  length, if◌then◌else◌,
}
use web_comunidad_solar.Json.{Json, string, null, canonical_json}
use web_comunidad_solar.Ingest.Platform.{Platform, sha256_canonical}
use web_comunidad_solar.Ingest.Domain.{ChangeState, received, normalized, planned}
use web_comunidad_solar.Ingest.Disk.{Host, World, Entry, missing, regular, Fault, works}
use web_comunidad_solar.Ingest.Journal.{
  JournalEvent, JournalEventDraft, sign, event_hash, event_json,
}
use web_comunidad_solar.Ingest.Journal.Format.{serialize_journal}
use web_comunidad_solar.Ingest.Record.{ChangeRecord, record_json, attempt_id}
use web_comunidad_solar.Ingest.Store.{TransitionEvent}
use web_comunidad_solar.Ingest.Owner.{LockOwner, owner_json}

abbrev pub letters : ℕ → Text
letters zero = []
letters (suc n) = b'a' ∷ letters n

-- A digest of the form of SHA-256, that tells texts apart by their length only.
abbrev pub digest : Text → Text
digest t = (b'0' + length t % 10) ∷ letters 63

abbrev pub midday : Text
midday = codes "2026-07-31T12:00:00.000Z"

abbrev pub platform_reading : (Text → Option Json) → Platform
platform_reading reads = record {
  sha256 = digest;
  json_parse = reads;
  date_parse = λ t. some (length t);
}

abbrev pub blind : Platform
blind = platform_reading (λ t. none)

abbrev pub seal : JournalEventDraft → JournalEvent
seal d = sign d (event_hash blind d)

abbrev pub change : Text
change = codes "cambio-1"

abbrev pub payload : Json
payload = string (codes "contenido")

abbrev pub opening : JournalEvent
opening = seal (record {
  sequence = 1;
  at = midday;
  type = codes "received";
  from = none;
  to = received;
  payload_sha256 = sha256_canonical blind payload;
  previous_event_sha256 = none;
})

abbrev pub normalizing : JournalEvent
normalizing = seal (record {
  sequence = 2;
  at = midday;
  type = codes "normalize";
  from = some received;
  to = normalized;
  payload_sha256 = sha256_canonical blind payload;
  previous_event_sha256 = some opening.event_sha256;
})

abbrev pub events : List JournalEvent
events = opening ∷ normalizing ∷ []

abbrev pub current : ChangeRecord
current = record {
  change_id = change;
  state = normalized;
  revision = 2;
  attempt_number = 1;
  current_attempt_id = attempt_id 1;
  resume_state = normalized;
  created_at = midday;
  updated_at = midday;
}

abbrev pub planning : TransitionEvent
planning = record { type = codes "plan"; to = planned; payload = payload }

abbrev pub planning_event : JournalEvent
planning_event = seal (record {
  sequence = 3;
  at = midday;
  type = codes "plan";
  from = some normalized;
  to = planned;
  payload_sha256 = sha256_canonical blind payload;
  previous_event_sha256 = some normalizing.event_sha256;
})

abbrev pub planned_record : ChangeRecord
planned_record = record current { state = planned; revision = 3; resume_state = planned }

abbrev pub owner : LockOwner
owner = record {
  pid = 77;
  hostname = codes "taller";
  created_at = midday;
  token = some (codes "ficha");
}

-- The texts of the change, and what they are read as.
abbrev pub known : List Json
known =
    event_json opening
    ∷ event_json normalizing
    ∷ event_json planning_event
    ∷ record_json current
    ∷ record_json planned_record
    ∷ owner_json owner
    ∷ []

abbrev pub read_known : List Json → Text → Option Json
read_known [] t = none
read_known (v ∷ vs) t =
    let rest = read_known vs t in if canonical_json v === t then some v else rest

abbrev pub platform : Platform
platform = platform_reading (read_known known)

abbrev pub host_with : (ℕ → Fault) → Host
host_with fault = record {
  now = λ n. some midday;
  hostname = codes "taller";
  pid = 42;
  uuid = λ n. (b'0' + n % 10) ∷ letters 35;
  pid_alive = λ n. true;
  fault = fault;
}

abbrev pub host : Host
host = host_with (λ n. works)

abbrev pub disk : World
disk = record {
  state_file = regular (canonical_json (record_json current));
  journal_file = regular (serialize_journal events);
  lock_file = missing;
  guard_file = missing;
  quarantine_file = missing;
  ticks = 0;
  writes = 0;
  ids = 0;
}
