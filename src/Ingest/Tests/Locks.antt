-- ===== src/Ingest/Tests/Locks.antt =====
-- A lock left behind by a process that is gone.
use web_comunidad_solar.Prelude.{
  ◌≡◌, refl, arith, true, false, some, [], ◌∷◌, codes, ◌===◌, if◌then◌else◌,
}
use web_comunidad_solar.Json.{canonical_json}
use web_comunidad_solar.Ingest.Failure.{ok}
use web_comunidad_solar.Ingest.Platform.{Platform}
use web_comunidad_solar.Ingest.Disk.{Host, World, missing, regular}
use web_comunidad_solar.Ingest.Owner.{LockOwner, owner_json, parse_lock_owner}
use web_comunidad_solar.Ingest.Owner.Abandoned.{IsAbandoned}
use web_comunidad_solar.Ingest.Lock.{acquire_lock}
use web_comunidad_solar.Ingest.Lock.Taking.{owner_text}
use web_comunidad_solar.Ingest.Lock.Stale.{acquire_lock-gone}
use web_comunidad_solar.Ingest.Tests.{
  platform_reading, read_known, host, change, disk, midday, owner,
}

abbrev early : LockOwner
early = record owner { created_at = codes "2026-07-31T08:00:00.000Z" }

abbrev platform : Platform
platform = record (platform_reading (read_known (owner_json early ∷ []))) {
  date_parse = λ t. if t === midday then some 14400000 else some 0;
}

abbrev lone : Host
lone = record host { pid_alive = λ n. false }

abbrev left : World
left = record disk { state_file = missing; lock_file = regular (canonical_json (owner_json early)) }

early-parsed : parse_lock_owner platform (canonical_json (owner_json early)) ≡ some early
unfolding parse_lock_owner canonical_json owner_json
early-parsed = refl

early-IsAbandoned : IsAbandoned platform lone early midday
early-IsAbandoned = record {
  old = record {
    created = 0;
    present = 14400000;
    read = refl;
    read_now = refl;
    late = ground arith;
  };
  here = refl;
  gone = refl;
}

acquire_lock-gone_example : acquire_lock platform lone change left ≡ (
  ok (record { owner_bytes = owner_text lone midday 1; recovery_pending = true }),
  record left { lock_file = regular (owner_text lone midday 1); ticks = 3; ids = 2; writes = 2 },
)
acquire_lock-gone_example =
    acquire_lock-gone platform lone change left (canonical_json (owner_json early)) midday midday
      midday early refl refl refl early-parsed refl refl refl refl refl early-IsAbandoned
