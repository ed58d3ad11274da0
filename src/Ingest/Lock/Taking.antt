-- ===== src/Ingest/Lock/Taking.antt =====
-- Taking the lock of a change: when it is free, and when another process holds it.
use web_comunidad_solar.Prelude.{ℕ, ◌+◌, ◌≡◌, refl, arith, false, not, some, Text, ===_refl, ◌&&◌}
use web_comunidad_solar.Json.{canonical_json}
use web_comunidad_solar.Ingest.Failure.{ok, err, change_locked}
use web_comunidad_solar.Ingest.Platform.{Platform}
use web_comunidad_solar.Ingest.Disk.{
  Host, World, works, missing, regular, lock, recovery_guard, timestamp, random_uuid,
  create_exclusive_owner_file, remove_owned_lock, read_regular_file,
}
use web_comunidad_solar.Ingest.Owner.{LockOwner, owner_json, parse_lock_owner, is_recovery_eligible}
use web_comunidad_solar.Ingest.Owner.Abandoned.{IsInUse, IsInUse-eligible}
use web_comunidad_solar.Ingest.Lock.{
  new_owner, check_stale, after_create, replace_stale_lock, take_held_lock,
  acquire_lock_under_guard, acquire_recovery_guard, after_guard, release_guard, acquire_lock,
}

-- The owner file that this process writes at a reading of the clock, with a fresh token.
pub owner_text : Host → Text → ℕ → Text
owner_text host at k = canonical_json (
    owner_json (record {
      pid = host.pid;
      hostname = host.hostname;
      created_at = at;
      token = some (host.uuid k);
    }))

module _ (p : Platform) (host : Host) (id : Text) where
  pub new_owner-eq :
      (w : World) (at : Text)
      → host.now w.ticks ≡ some at
      → new_owner p host id w
        ≡ (ok (owner_text host at w.ids), record w { ticks = w.ticks + 1; ids = w.ids + 1 })
  unfolding new_owner timestamp random_uuid owner_text
  new_owner-eq w at c = ground arith

  create-eq :
      (w : World) (t : Text)
      → w.lock_file ≡ missing
      → host.fault w.writes ≡ works
      → create_exclusive_owner_file host lock t w
        ≡ (ok tt, record w { lock_file = regular t; writes = w.writes + 1 })
  unfolding create_exclusive_owner_file
  create-eq w t m f = ground arith

  acquire_lock_under_guard-free :
      (w : World) (at : Text)
      → w.lock_file ≡ missing
      → host.now w.ticks ≡ some at
      → host.fault w.writes ≡ works
      → acquire_lock_under_guard p host id w ≡ (
        ok (record { owner_bytes = owner_text host at w.ids; recovery_pending = false }),
        record w {
          lock_file = regular (owner_text host at w.ids);
          ticks = w.ticks + 1;
          ids = w.ids + 1;
          writes = w.writes + 1;
        },
      )
  unfolding acquire_lock_under_guard after_create
  acquire_lock_under_guard-free w at m c f = ground (
    arith,
    new_owner-eq w at c,
    create-eq (record w { ticks = w.ticks + 1; ids = w.ids + 1 }) (owner_text host at w.ids) m f,
  )

  pub acquire_recovery_guard-free :
      (w : World) (at : Text)
      → w.guard_file ≡ missing
      → host.now w.ticks ≡ some at
      → host.fault w.writes ≡ works
      → acquire_recovery_guard p host id w ≡ (
        ok (owner_text host at w.ids),
        record w {
          guard_file = regular (owner_text host at w.ids);
          ticks = w.ticks + 1;
          ids = w.ids + 1;
          writes = w.writes + 1;
        },
      )
  unfolding acquire_recovery_guard after_guard create_exclusive_owner_file
  acquire_recovery_guard-free w at m c f = ground (arith, new_owner-eq w at c)

  -- The guard is taken away by its owner.
  pub remove-guard :
      (w : World) (t : Text)
      → w.guard_file ≡ regular t
      → remove_owned_lock recovery_guard t w ≡ (ok tt, record w { guard_file = missing })
  unfolding remove_owned_lock
  remove-guard w t m = ground (arith, ===_refl t)

  abbrev after_free : World → Text → World
  after_free w at = record w {
    lock_file = regular (owner_text host at (w.ids + 1));
    ticks = w.ticks + 2;
    ids = w.ids + 2;
    writes = w.writes + 2;
  }

  -- A free lock under a free guard, with the clock and both writes working, is taken by this process's
  -- own owner file, with no recovery to note, and the guard is gone again.
  pub acquire_lock-free :
      (w : World) (at again : Text)
      → w.guard_file ≡ missing
      → w.lock_file ≡ missing
      → host.now w.ticks ≡ some at
      → host.now (w.ticks + 1) ≡ some again
      → host.fault w.writes ≡ works
      → host.fault (w.writes + 1) ≡ works
      → acquire_lock p host id w ≡ (
        ok (record { owner_bytes = owner_text host again (w.ids + 1); recovery_pending = false }),
        after_free w again,
      )
  unfolding acquire_lock release_guard
  acquire_lock-free w at again g m c d f k =
      let guard = owner_text host at w.ids in
      let v = record w {
        guard_file = regular guard;
        ticks = w.ticks + 1;
        ids = w.ids + 1;
        writes = w.writes + 1;
      } in
      ground (
        arith,
        acquire_recovery_guard-free w at g c f,
        acquire_lock_under_guard-free v again m d k,
        remove-guard
            (record v {
              lock_file = regular (owner_text host again (w.ids + 1));
              ticks = w.ticks + 1 + 1;
              ids = w.ids + 1 + 1;
              writes = w.writes + 1 + 1;
            })
            guard refl,
      )

  check_stale-live :
      (w : World) (t at : Text) (o : LockOwner)
      → parse_lock_owner p t ≡ some o
      → host.now w.ticks ≡ some at
      → (is_recovery_eligible p o at host.hostname && not (host.pid_alive o.pid)) ≡ false
      → check_stale p host id t w ≡ (err change_locked, record w { ticks = w.ticks + 1 })
  unfolding check_stale timestamp
  check_stale-live w t at o q c live = ground arith

  acquire_lock_under_guard-held :
      (w : World) (t at again : Text) (o : LockOwner)
      → w.lock_file ≡ regular t
      → parse_lock_owner p t ≡ some o
      → host.now w.ticks ≡ some at
      → host.now (w.ticks + 1) ≡ some again
      → (is_recovery_eligible p o again host.hostname && not (host.pid_alive o.pid)) ≡ false
      → acquire_lock_under_guard p host id w
        ≡ (err change_locked, record w { ticks = w.ticks + 2; ids = w.ids + 1 })
  unfolding acquire_lock_under_guard after_create take_held_lock replace_stale_lock
      create_exclusive_owner_file read_regular_file
  acquire_lock_under_guard-held w t at again o m q c d live = ground (
    arith,
    new_owner-eq w at c,
    check_stale-live (record w { ticks = w.ticks + 1; ids = w.ids + 1 }) t again o q d live,
  )

  -- A lock with a readable owner that is of another host, or whose process lives, or that wrote it at
  -- most thirty minutes ago is left alone: with the guard free, and the clock and the write of the guard
  -- working, the attempt fails and changes none of the files.
  pub acquire_lock-held :
      (w : World) (t at again third : Text) (o : LockOwner)
      → w.guard_file ≡ missing
      → w.lock_file ≡ regular t
      → parse_lock_owner p t ≡ some o
      → host.now w.ticks ≡ some at
      → host.now (w.ticks + 1) ≡ some again
      → host.now (w.ticks + 2) ≡ some third
      → host.fault w.writes ≡ works
      → IsInUse p host o third
      → acquire_lock p host id w ≡ (
        err change_locked,
        record w { ticks = w.ticks + 3; ids = w.ids + 2; writes = w.writes + 1 },
      )
  unfolding acquire_lock release_guard
  acquire_lock-held w t at again third o g m q c d e f in_use =
      let live = IsInUse-eligible p host o third in_use in
      let guard = owner_text host at w.ids in
      let v = record w {
        guard_file = regular guard;
        ticks = w.ticks + 1;
        ids = w.ids + 1;
        writes = w.writes + 1;
      } in
      let third' : host.now (w.ticks + 1 + 1) ≡ some third = ground (arith, e) in
      ground (
        arith,
        acquire_recovery_guard-free w at g c f,
        acquire_lock_under_guard-held v t again third o m q d third' live,
        remove-guard (record v { ticks = w.ticks + 1 + 2; ids = w.ids + 1 + 1 }) guard refl,
      )
