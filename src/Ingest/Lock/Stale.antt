-- ===== src/Ingest/Lock/Stale.antt =====
-- Taking over the lock of a process that is gone.
use web_comunidad_solar.Prelude.{◌+◌, ◌≡◌, refl, arith, true, not, none, some, Text, ===_refl, ◌&&◌}
use web_comunidad_solar.Ingest.Failure.{ok}
use web_comunidad_solar.Ingest.Platform.{Platform}
use web_comunidad_solar.Ingest.Disk.{
  Host, World, works, missing, regular, timestamp, create_exclusive_owner_file, read_regular_file,
  unlink,
}
use web_comunidad_solar.Ingest.Owner.{LockOwner, parse_lock_owner, is_recovery_eligible}
use web_comunidad_solar.Ingest.Owner.Abandoned.{IsAbandoned, IsAbandoned-eligible}
use web_comunidad_solar.Ingest.Store.{read_state, read_state_text}
use web_comunidad_solar.Ingest.Lock.{
  check_stale, note_recovery, replace_stale_lock, take_held_lock, after_create,
  acquire_lock_under_guard, release_guard, acquire_lock,
}
use web_comunidad_solar.Ingest.Lock.Taking.{
  owner_text, new_owner-eq, remove-guard, acquire_recovery_guard-free,
}

module _ (p : Platform) (host : Host) (id : Text) where
  check_stale-gone :
      (w : World) (t at : Text) (o : LockOwner)
      → parse_lock_owner p t ≡ some o
      → host.now w.ticks ≡ some at
      → (is_recovery_eligible p o at host.hostname && not (host.pid_alive o.pid)) ≡ true
      → check_stale p host id t w ≡ (ok tt, record w { ticks = w.ticks + 1 })
  unfolding check_stale timestamp
  check_stale-gone w t at o q c gone = ground arith

  no_state : (w : World) → w.state_file ≡ missing → read_state p host id w ≡ (ok none, w)
  unfolding read_state read_state_text read_regular_file
  no_state w m = ground arith

  replace_stale_lock-gone :
      (w : World) (t own at : Text) (o : LockOwner)
      → w.lock_file ≡ regular t
      → w.state_file ≡ missing
      → parse_lock_owner p t ≡ some o
      → host.now w.ticks ≡ some at
      → host.fault w.writes ≡ works
      → (is_recovery_eligible p o at host.hostname && not (host.pid_alive o.pid)) ≡ true
      → replace_stale_lock p host id own t w ≡ (
        ok (record { owner_bytes = own; recovery_pending = true }),
        record w { lock_file = regular own; ticks = w.ticks + 1; writes = w.writes + 1 },
      )
  unfolding replace_stale_lock note_recovery read_regular_file create_exclusive_owner_file unlink
  replace_stale_lock-gone w t own at o m s q c f gone = ground (
    arith,
    check_stale-gone w t at o q c gone,
    ===_refl t,
    no_state (record w { lock_file = regular own; ticks = w.ticks + 1; writes = w.writes + 1 }) s,
  )

  acquire_lock_under_guard-gone :
      (w : World) (t at again : Text) (o : LockOwner)
      → w.lock_file ≡ regular t
      → w.state_file ≡ missing
      → parse_lock_owner p t ≡ some o
      → host.now w.ticks ≡ some at
      → host.now (w.ticks + 1) ≡ some again
      → host.fault w.writes ≡ works
      → (is_recovery_eligible p o again host.hostname && not (host.pid_alive o.pid)) ≡ true
      → acquire_lock_under_guard p host id w ≡ (
        ok (record { owner_bytes = owner_text host at w.ids; recovery_pending = true }),
        record w {
          lock_file = regular (owner_text host at w.ids);
          ticks = w.ticks + 2;
          ids = w.ids + 1;
          writes = w.writes + 1;
        },
      )
  unfolding acquire_lock_under_guard after_create take_held_lock create_exclusive_owner_file
      read_regular_file
  acquire_lock_under_guard-gone w t at again o m s q c d f gone = ground (
    arith,
    new_owner-eq p host id w at c,
    replace_stale_lock-gone (record w { ticks = w.ticks + 1; ids = w.ids + 1 }) t
        (owner_text host at w.ids) again o m s q d f gone,
  )

  -- The lock of a readable owner that wrote it on this host more than thirty minutes ago and whose
  -- process is gone is taken over by this process's own owner file, where the change has no record yet,
  -- the guard is free, and the clock and the disk work; the guard is gone again, and the recovery is left
  -- to be noted.
  pub acquire_lock-gone :
      (w : World) (t at again third : Text) (o : LockOwner)
      → w.guard_file ≡ missing
      → w.lock_file ≡ regular t
      → w.state_file ≡ missing
      → parse_lock_owner p t ≡ some o
      → host.now w.ticks ≡ some at
      → host.now (w.ticks + 1) ≡ some again
      → host.now (w.ticks + 2) ≡ some third
      → host.fault w.writes ≡ works
      → host.fault (w.writes + 1) ≡ works
      → IsAbandoned p host o third
      → acquire_lock p host id w ≡ (
        ok (record { owner_bytes = owner_text host again (w.ids + 1); recovery_pending = true }),
        record w {
          lock_file = regular (owner_text host again (w.ids + 1));
          ticks = w.ticks + 3;
          ids = w.ids + 2;
          writes = w.writes + 2;
        },
      )
  unfolding acquire_lock release_guard
  acquire_lock-gone w t at again third o g m s q c d e f k abandoned =
      let gone = IsAbandoned-eligible p host o third abandoned in
      let guard = owner_text host at w.ids in
      let own = owner_text host again (w.ids + 1) in
      let v = record w {
        guard_file = regular guard;
        ticks = w.ticks + 1;
        ids = w.ids + 1;
        writes = w.writes + 1;
      } in
      let third' : host.now (w.ticks + 1 + 1) ≡ some third = ground (arith, e) in
      ground (
        arith,
        acquire_recovery_guard-free p host id w at g c f,
        acquire_lock_under_guard-gone v t again third o m s q d third' k gone,
        remove-guard p host id
            (record v {
              lock_file = regular own;
              ticks = w.ticks + 1 + 2;
              ids = w.ids + 1 + 1;
              writes = w.writes + 1 + 1;
            })
            guard refl,
      )
