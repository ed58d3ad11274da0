-- ===== src/Ingest/Api/Retried.antt =====
-- A retry under the lock of its change.
use web_comunidad_solar.Prelude.{◌+◌, ◌≡◌, refl, none, List, [], ◌∷◌, ◌++◌, Text}
use web_comunidad_solar.Ingest.Failure.{ok}
use web_comunidad_solar.Ingest.Platform.{Platform}
use web_comunidad_solar.Ingest.Disk.{Host, World, works, missing}
use web_comunidad_solar.Ingest.Journal.{JournalEvent}
use web_comunidad_solar.Ingest.Record.{ChangeRecord}
use web_comunidad_solar.Ingest.Store.{retry_under_lock}
use web_comunidad_solar.Ingest.Store.Reading.{Holds, Holds-same_files}
use web_comunidad_solar.Ingest.Store.Retrying.{
  retry_record, retry_event, IsRetryable, retried, retry_under_lock-Holds,
}
use web_comunidad_solar.Ingest.Api.{retry_change}
use web_comunidad_solar.Ingest.Api.Released.{locked, IsFree, with_change_lock-released}

-- A retry of an intact change that failed or was rejected and whose lock is free, with the clock and
-- the disk working, returns the record of the next attempt, in the state to resume from, and leaves no
-- lock and an intact change on disk that has that record and one event more.
pub retry_change-Holds :
    (p : Platform) (host : Host) (id : Text) (r : ChangeRecord) (es : List JournalEvent) (at : Text)
    (w : World) (lock_at : Text)
    → IsFree host w lock_at
    → Holds p id r es w
    → IsRetryable p host id r es at (locked host w lock_at)
    → host.fault (w.writes + 2) ≡ works
    → host.fault (w.writes + 2 + 1) ≡ works
    → (retry_change p host id w ≡ (
      ok (retry_record p host id r es at),
      record (retried p host id r es at (locked host w lock_at)) { lock_file = missing },
    ))
      × Holds p id
          (retry_record p host id r es at)
          (es ++ retry_event p host id r es at ∷ [])
          (record (retried p host id r es at (locked host w lock_at)) { lock_file = missing })
unfolding retry_change
retry_change-Holds p host id r es at w lock_at free h ready f g =
    let v = locked host w lock_at in
    let k = Holds-same_files p id r es w v h refl refl in
    let (done, intact) = retry_under_lock-Holds p host id r es at k ready f g in
    let next = retried p host id r es at v in
    (
      with_change_lock-released p host id (retry_under_lock p host id) none w next lock_at _ free
          done refl,
      Holds-same_files p id _ _ next (record next { lock_file = missing }) intact refl refl,
    )
