-- ===== src/Ingest/Api.antt =====
-- src/ingest/state-store.ts: the operations of a store, each under the lock of its change.
pub mod Released
pub mod Retried
use web_comunidad_solar.Prelude.{Bool, true, false, Option, none, some, List, Text, if◌then◌else◌}
use web_comunidad_solar.Ingest.Failure.{Failure, Result, ok, err, aggregate}
use web_comunidad_solar.Ingest.Platform.{Platform}
use web_comunidad_solar.Ingest.Disk.{
  Host, World, Action, lock, ◌>>=◌, ◌>>◌, pure, throw, lift, settle, remove_owned_lock,
}
use web_comunidad_solar.Ingest.Journal.{JournalEvent}
use web_comunidad_solar.Ingest.Record.{ChangeRecord}
use web_comunidad_solar.Ingest.Store.{
  TransitionEvent, read_state, read_change, persist_transition, record_lock_recovery,
  retry_under_lock, verify_journal_for,
}
use web_comunidad_solar.Ingest.Lock.{AcquiredLock, acquire_lock}

module _ (p : Platform) (host : Host) (change_id : Text) where
  module _ {A : Type 0} where
    -- The recovery of a stale lock is noted once the callback has written a first record.
    note_pending : Option (Action A) → A → Option ChangeRecord → Action A
    note_pending after result none = pure result
    note_pending none result (some r) = do record_lock_recovery p host change_id; pure result
    note_pending (some after) result (some r) = do record_lock_recovery p host change_id; after

    finish : Option (Action A) → Bool → A → Action A
    unfolding note_pending
    finish after false result = pure result
    finish after true result = do
      found ← read_state p host change_id
      note_pending after result found

    abbrev released : Result (Unit {0}) → Result A → Result A
    released (ok u) result = result
    released (err cleanup) (ok a) = err cleanup
    released (err cleanup) (err primary) = err (aggregate primary cleanup)

    unfoldable pub with_change_lock : Action A → Option (Action A) → Action A
    unfolding finish
    with_change_lock fn after = do
      acquired ← acquire_lock p host change_id
      result ← settle (do r ← fn; finish after acquired.recovery_pending r)
      cleanup ← settle (remove_owned_lock lock acquired.owner_bytes)
      lift (released cleanup result)

  -- `locked.transition(event)`
  unfoldable pub locked_transition : TransitionEvent → Action ChangeRecord
  locked_transition event = do
    previous ← read_state p host change_id
    persist_transition p host change_id previous event false

  unfoldable pub transition : TransitionEvent → Action ChangeRecord
  unfolding locked_transition
  transition event =
      with_change_lock (locked_transition event) (some (read_change p host change_id))

  unfoldable pub retry_change : Action ChangeRecord
  retry_change = with_change_lock (retry_under_lock p host change_id) none

  unfoldable pub verify_journal : Action (List JournalEvent)
  verify_journal = verify_journal_for p host change_id
