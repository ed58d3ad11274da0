-- ===== src/Ingest/Disk.antt =====
-- The files of one change and the effects of src/ingest/state-store.ts on them. A file is the text
-- that it decodes to; the clock, the identifiers and the faults of the file system are functions of
-- the number of times that they were asked for.
use web_comunidad_solar.Prelude.{ℕ, ◌+◌, Bool, not, Option, none, some, Text, ◌===◌}
use web_comunidad_solar.Ingest.Failure.{
  Result, ok, err, clock_invalid, not_a_regular_file, write_failed, no_such_file, own_lock_missing,
  own_lock_changed, already_exists,
}
use web_comunidad_solar.Ingest.Effect.{Effect}
pub use web_comunidad_solar.Ingest.Effect.{
  ◌>>=◌, ◌>>◌, pure, throw, lift, reject_if, try_catch, then_throw, settle,
}

pub data Entry : Type 0 where
  missing : Entry
  regular : Text → Entry
  -- a symbolic link, a directory or another file that is not regular
  irregular : Entry

pub data Place : Type 0 where
  state journal lock recovery_guard quarantine : Place

pub record World : Type 0 where
  pub state_file : Entry
  pub journal_file : Entry
  pub lock_file : Entry
  pub guard_file : Entry
  pub quarantine_file : Entry
  pub ticks : ℕ
  pub writes : ℕ
  pub ids : ℕ

abbrev pub entry : Place → World → Entry
entry state w = w.state_file
entry journal w = w.journal_file
entry lock w = w.lock_file
entry recovery_guard w = w.guard_file
entry quarantine w = w.quarantine_file

abbrev pub put : Place → Entry → World → World
put state e w = record w { state_file = e }
put journal e w = record w { journal_file = e }
put lock e w = record w { lock_file = e }
put recovery_guard e w = record w { guard_file = e }
put quarantine e w = record w { quarantine_file = e }

-- A change of the disk works, fails before it is visible, or fails after that (the flush of the
-- directory behind the rename).
pub data Fault : Type 0 where
  works fails_before fails_after : Fault

pub record Host : Type 0 where
  pub now : ℕ → Option Text
  pub hostname : Text
  pub pid : ℕ
  pub uuid : ℕ → Text
  pub pid_alive : ℕ → Bool
  pub fault : ℕ → Fault

abbrev pub Action : Type 0 → Type 0
Action A = Effect World A

abbrev read_entry : Entry → Result (Option Text)
read_entry missing = ok none
read_entry (regular t) = ok (some t)
read_entry irregular = err not_a_regular_file

unfoldable pub read_regular_file : Place → Action (Option Text)
read_regular_file f w = (read_entry (entry f w), w)

module _ (host : Host) where
  unfoldable pub timestamp : Action Text
  timestamp w =
      let w' = record w { ticks = w.ticks + 1 } in
      elim (host.now w.ticks) [ none ↦ (err clock_invalid, w') | some t ↦ (ok t, w') ]

  unfoldable pub random_uuid : Action Text
  random_uuid w = (ok (host.uuid w.ids), record w { ids = w.ids + 1 })

  -- One change of a file, as its fault has it.
  abbrev change : Fault → Place → Entry → Action (Unit {0})
  change works f e w = (ok tt, put f e w)
  change fails_before f e w = (err write_failed, w)
  change fails_after f e w = (err write_failed, put f e w)

  abbrev write_over : Entry → Place → Text → Action (Unit {0})
  write_over irregular f t w = (err not_a_regular_file, w)
  write_over _ f t w =
      change (host.fault w.writes) f (regular t) (record w { writes = w.writes + 1 })

  unfoldable pub write_atomic : Place → Text → Action (Unit {0})
  write_atomic f t w = write_over (entry f w) f t w

  abbrev remove_entry : Entry → Place → Action (Unit {0})
  remove_entry missing f w = (err no_such_file, w)
  remove_entry _ f w = change (host.fault w.writes) f missing (record w { writes = w.writes + 1 })

  unfoldable pub remove_file_atomically : Place → Action (Unit {0})
  remove_file_atomically f w = remove_entry (entry f w) f w

  -- A fault behind the link is undone by the clean-up, so that either fault leaves no file.
  abbrev create_absent : Fault → Place → Text → Action (Unit {0})
  create_absent works f t w = (ok tt, put f (regular t) w)
  create_absent _ f t w = (err write_failed, w)

  abbrev create_over : Entry → Place → Text → Action (Unit {0})
  create_over missing f t w =
      create_absent (host.fault w.writes) f t (record w { writes = w.writes + 1 })
  create_over _ f t w = (err already_exists, w)

  unfoldable pub create_exclusive_owner_file : Place → Text → Action (Unit {0})
  create_exclusive_owner_file f t w = create_over (entry f w) f t w

-- `unlink`
abbrev unlink_entry : Entry → Place → Action (Unit {0})
unlink_entry missing f w = (err no_such_file, w)
unlink_entry _ f w = (ok tt, put f missing w)

unfoldable pub unlink : Place → Action (Unit {0})
unlink f w = unlink_entry (entry f w) f w

abbrev remove_own : Option Text → Place → Text → Action (Unit {0})
remove_own none f owner = throw own_lock_missing
remove_own (some current) f owner = do
  reject_if (not (current === owner)) own_lock_changed
  unlink f

unfoldable pub remove_owned_lock : Place → Text → Action (Unit {0})
unfolding read_regular_file unlink
remove_owned_lock f owner = do current ← read_regular_file f; remove_own current f owner
