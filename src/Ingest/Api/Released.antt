-- ===== src/Ingest/Api/Released.antt =====
-- The lock around an operation of the store.
use web_comunidad_solar.Prelude.{
  ◌+◌, ◌≡◌, refl, arith, false, Option, some, List, ◌∷◌, [], ◌++◌, Text, ===_refl,
}
use web_comunidad_solar.Ingest.Failure.{Result, ok, err}
use web_comunidad_solar.Ingest.Platform.{Platform}
use web_comunidad_solar.Ingest.Disk.{
  Host, World, Action, works, missing, regular, lock, remove_owned_lock,
}
use web_comunidad_solar.Ingest.Journal.{JournalEvent}
use web_comunidad_solar.Ingest.Record.{ChangeRecord}
use web_comunidad_solar.Ingest.Store.{TransitionEvent, read_change, persist_transition}
use web_comunidad_solar.Ingest.Store.Reading.{Holds, Holds-same_files, read_state-Holds}
use web_comunidad_solar.Ingest.Store.Writing.{
  next_record, next_event, IsReady, written, persist_transition-Holds,
}
use web_comunidad_solar.Ingest.Lock.Taking.{owner_text, acquire_lock-free}
use web_comunidad_solar.Ingest.Api.{with_change_lock, locked_transition, transition}

-- The disk once this process has taken a free lock, and its owner file.
abbrev pub locked : Host → World → Text → World
locked host w at = record w {
  lock_file = regular (owner_text host at (w.ids + 1));
  ticks = w.ticks + 2;
  ids = w.ids + 2;
  writes = w.writes + 2;
}

-- The lock and its guard are free, and the clock and the disk work while the lock is taken.
pub record IsFree (host : Host) (w : World) (at : Text) : Type 0 where
  pub before : Text
  pub guard_file : w.guard_file ≡ missing
  pub lock_file : w.lock_file ≡ missing
  pub clock : host.now w.ticks ≡ some before
  pub clock_again : host.now (w.ticks + 1) ≡ some at
  pub guard_works : host.fault w.writes ≡ works
  pub lock_works : host.fault (w.writes + 1) ≡ works

module _ (p : Platform) (host : Host) (id : Text) where
  remove-own :
      (u : World) (t : Text)
      → u.lock_file ≡ regular t
      → remove_owned_lock lock t u ≡ (ok tt, record u { lock_file = missing })
  unfolding remove_owned_lock
  remove-own u t m = ground (arith, ===_refl t)

  -- Where the lock and its guard are free and the clock and the writes of both work, the operation runs
  -- under the lock, and its result, a success or a failure, comes back with the lock gone, if the operation
  -- left the lock file as it was taken.
  pub with_change_lock-released :
      {A : Type 0} (fn : Action A) (after : Option (Action A)) (w u : World) (at : Text)
      (result : Result A)
      → IsFree host w at
      → fn (locked host w at) ≡ (result, u)
      → u.lock_file ≡ regular (owner_text host at (w.ids + 1))
      → with_change_lock p host id fn after w ≡ (result, record u { lock_file = missing })
  unfolding with_change_lock
  with_change_lock-released fn after w u at (ok a) f runs kept = ground (
    arith,
    acquire_lock-free p host id w f.before at f.guard_file f.lock_file f.clock f.clock_again
        f.guard_works f.lock_works,
    runs,
    remove-own u (owner_text host at (w.ids + 1)) kept,
  )
  with_change_lock-released fn after w u at (err e) f runs kept = ground (
    arith,
    acquire_lock-free p host id w f.before at f.guard_file f.lock_file f.clock f.clock_again
        f.guard_works f.lock_works,
    runs,
    remove-own u (owner_text host at (w.ids + 1)) kept,
  )

  locked_transition-eq :
      (r : ChangeRecord) (es : List JournalEvent) (event : TransitionEvent) (v u : World)
      (result : Result ChangeRecord)
      → Holds p id r es v
      → persist_transition p host id (some r) event false v ≡ (result, u)
      → locked_transition p host id event v ≡ (result, u)
  unfolding locked_transition
  locked_transition-eq r es event v u result k done =
      ground (arith, read_state-Holds p host id k, done)

  module _ (r : ChangeRecord) (es : List JournalEvent) (event : TransitionEvent) (at : Text) where
    -- A permitted transition of an intact change whose lock is free, with the clock and the disk
    -- working, returns the advanced record, and leaves no lock and an intact change on disk that has
    -- that record and one event more.
    pub transition-Holds :
        (w : World) (lock_at : Text)
        → IsFree host w lock_at
        → Holds p id r es w
        → IsReady p host id r es event at (locked host w lock_at)
        → host.fault (w.writes + 2) ≡ works
        → host.fault (w.writes + 2 + 1) ≡ works
        → (transition p host id event w ≡ (
          ok (next_record p host id r es event at),
          record (written p host id r es event at (locked host w lock_at)) { lock_file = missing },
        ))
          × Holds p id
              (next_record p host id r es event at)
              (es ++ next_event p host id r es event at ∷ [])
              (record (written p host id r es event at (locked host w lock_at)) {
                lock_file = missing;
              })
    unfolding transition
    transition-Holds w lock_at free h ready f g =
        let v = locked host w lock_at in
        let k = Holds-same_files p id r es w v h refl refl in
        let (done, intact, reads) = persist_transition-Holds p host id r es event at k ready f g in
        let next = written p host id r es event at v in
        (
          with_change_lock-released (locked_transition p host id event)
              (some (read_change p host id)) w next lock_at _ free
              (locked_transition-eq r es event v _ _ k done) refl,
          Holds-same_files p id _ _ next (record next { lock_file = missing }) intact refl refl,
        )
