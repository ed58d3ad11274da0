-- ===== src/Ingest/Lock.antt =====
-- src/ingest/state-store.ts: the lock of a change and the guard under which it is taken. Another
-- process shows here as what the files hold when an action starts.
pub mod Taking
pub mod Stale
use web_comunidad_solar.Prelude.{
  Bool, true, false, not, Option, none, some, Text, ◌===◌, if◌then◌else◌, ◌&&◌,
}
use web_comunidad_solar.Json.{canonical_json}
use web_comunidad_solar.Ingest.Failure.{
  Failure, Result, ok, err, aggregate, or_throw, lock_owner_invalid, already_exists, change_locked,
  no_such_file,
}
use web_comunidad_solar.Ingest.Platform.{Platform}
use web_comunidad_solar.Ingest.Disk.{
  Host, World, Action, Entry, missing, Place, lock, recovery_guard, quarantine, ◌>>=◌, ◌>>◌, pure,
  throw, lift, reject_if, try_catch, then_throw, settle, entry, put, read_regular_file, timestamp,
  random_uuid, create_exclusive_owner_file, unlink, remove_owned_lock, remove_file_atomically,
}
use web_comunidad_solar.Ingest.Record.{ChangeRecord}
use web_comunidad_solar.Ingest.Store.{read_state, record_lock_recovery}
use web_comunidad_solar.Ingest.Owner.{LockOwner, owner_json, parse_lock_owner, is_recovery_eligible}

pub record AcquiredLock : Type 0 where
  pub owner_bytes : Text
  pub recovery_pending : Bool

-- The failures that a caller turns into "locked by another process".
abbrev locked_if_exists : {A : Type 0} → Failure → Action A
locked_if_exists already_exists = throw change_locked
locked_if_exists e = throw e

abbrev locked_if_missing : {A : Type 0} → Failure → Action A
locked_if_missing no_such_file = throw change_locked
locked_if_missing e = throw e

abbrev is_record : Option ChangeRecord → Bool
is_record none = false
is_record (some r) = true

module _ (p : Platform) (host : Host) (change_id : Text) where
  unfoldable pub new_owner : Action Text
  new_owner = do
    at ← timestamp host
    token ← random_uuid host
    pure (
        canonical_json (
          owner_json (record {
            pid = host.pid;
            hostname = host.hostname;
            created_at = at;
            token = some token;
          })))

  -- Whether the owner is old enough, of this host, and no longer alive.
  unfoldable pub check_stale : Text → Action (Unit {0})
  check_stale existing = do
    owner ← lift (or_throw (parse_lock_owner p existing) lock_owner_invalid)
    at ← timestamp host
    reject_if
        (not (is_recovery_eligible p owner at host.hostname && not (host.pid_alive owner.pid)))
        change_locked

  abbrev same_bytes : Option Text → Text → Bool
  same_bytes none t = false
  same_bytes (some s) t = s === t

  take_free_lock : Text → Action AcquiredLock
  take_free_lock owner = do
    try_catch (create_exclusive_owner_file host lock owner) locked_if_exists
    pure (record { owner_bytes = owner; recovery_pending = false })

  note_recovery : Option ChangeRecord → Action (Unit {0})
  note_recovery none = pure tt
  note_recovery (some r) = record_lock_recovery p host change_id

  replace_stale_lock : Text → Text → Action AcquiredLock
  unfolding check_stale note_recovery
  replace_stale_lock owner existing = do
    check_stale existing
    before ← read_regular_file lock
    reject_if (not (same_bytes before existing)) change_locked
    unlink lock
    try_catch (create_exclusive_owner_file host lock owner) locked_if_exists
    try_catch
        (do
          previous ← read_state p host change_id
          note_recovery previous
          pure (record { owner_bytes = owner; recovery_pending = not (is_record previous) }))
        (then_throw (remove_owned_lock lock owner))

  take_held_lock : Text → Option Text → Action AcquiredLock
  unfolding take_free_lock replace_stale_lock
  take_held_lock owner none = take_free_lock owner
  take_held_lock owner (some existing) = replace_stale_lock owner existing

  -- The first attempt to create the lock: `EEXIST` goes on to the lock that is there.
  after_create : Text → Result (Unit {0}) → Action AcquiredLock
  unfolding take_held_lock
  after_create owner (ok u) = pure (record { owner_bytes = owner; recovery_pending = false })
  after_create owner (err already_exists) = do
    existing ← read_regular_file lock
    take_held_lock owner existing
  after_create owner (err e) = throw e

  unfoldable pub acquire_lock_under_guard : Action AcquiredLock
  unfolding new_owner after_create
  acquire_lock_under_guard = do
    owner ← new_owner
    created ← settle (create_exclusive_owner_file host lock owner)
    after_create owner created

  abbrev move_entry : Entry → Action (Unit {0})
  move_entry missing = throw no_such_file
  move_entry e = λ w. (ok tt, put quarantine e (put recovery_guard missing w))

  -- `rename(paths.recoveryGuard, quarantine)`
  rename_guard : Action (Unit {0})
  rename_guard w = move_entry (entry recovery_guard w) w

  abbrev relink_entry : Entry → Action (Unit {0})
  relink_entry missing = λ w. (ok tt, put recovery_guard (entry quarantine w) w)
  relink_entry e = pure tt

  -- `link` back, where `EEXIST` is passed over, and the removal of the quarantined file
  restore_quarantined_guard : Action (Unit {0})
  restore_quarantined_guard = do
    (λ w. relink_entry (entry recovery_guard w) w)
    remove_file_atomically host quarantine

  reclaim_stale_guard : Option Text → Action (Unit {0})
  unfolding check_stale rename_guard restore_quarantined_guard
  reclaim_stale_guard none = throw change_locked
  reclaim_stale_guard (some existing) = do
    check_stale existing
    try_catch rename_guard locked_if_missing
    moved ← read_regular_file quarantine
    if same_bytes moved existing
        then remove_file_atomically host quarantine
        else then_throw restore_quarantined_guard change_locked

  unfoldable pub reclaim_stale_recovery_guard : Action (Unit {0})
  unfolding reclaim_stale_guard
  reclaim_stale_recovery_guard = do
    existing ← read_regular_file recovery_guard
    reclaim_stale_guard existing

  after_guard : Text → Result (Unit {0}) → Action Text
  after_guard guard (ok u) = pure guard
  after_guard guard (err already_exists) = do
    reclaim_stale_recovery_guard
    try_catch (create_exclusive_owner_file host recovery_guard guard) locked_if_exists
    pure guard
  after_guard guard (err e) = throw e

  unfoldable pub acquire_recovery_guard : Action Text
  unfolding new_owner after_guard
  acquire_recovery_guard = do
    guard ← new_owner
    created ← settle (create_exclusive_owner_file host recovery_guard guard)
    after_guard guard created

  -- A guard that cannot be removed gives up the lock too, if there is one.
  release_failed : Result AcquiredLock → Failure → Action AcquiredLock
  release_failed (ok acquired) e = then_throw (remove_owned_lock lock acquired.owner_bytes) e
  release_failed (err primary) e = throw (aggregate primary e)

  release_guard : Text → Result AcquiredLock → Action AcquiredLock
  unfolding release_failed
  release_guard guard result = do
    released ← settle (remove_owned_lock recovery_guard guard)
    elim released [ ok u ↦ lift result | err e ↦ release_failed result e ]

  unfoldable pub acquire_lock : Action AcquiredLock
  unfolding release_guard
  acquire_lock = do
    guard ← acquire_recovery_guard
    result ← settle acquire_lock_under_guard
    release_guard guard result
