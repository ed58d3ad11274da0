-- ===== src/Ingest/Owner/Abandoned.antt =====
-- When the owner of a lock counts as gone, in terms of the dates, the host and the process, and how the
-- test of src/ingest/state-store.ts reads them.
use web_comunidad_solar.Prelude.{
  ℕ, ◌+◌, ◌≤◌, ◌<◌, ◌≡◌, ◌≢◌, ◌⊎◌, inl, inr, subst, arith, true, false, not, Bool-cases, some, Text,
  ◌===◌, ===_refl, eq_of_===, ◌&&◌,
}
use web_comunidad_solar.Ingest.Platform.{Platform}
use web_comunidad_solar.Ingest.Disk.{Host}
use web_comunidad_solar.Ingest.Owner.{LockOwner, is_recovery_eligible}

module _ (p : Platform) (host : Host) (o : LockOwner) (now : Text) where
  -- More than thirty minutes lie between the owner's date and now.
  pub record IsOld : Type 0 where
    pub created : ℕ
    pub present : ℕ
    pub read : p.date_parse o.created_at ≡ some created
    pub read_now : p.date_parse now ≡ some present
    pub late : created + 1800000 < present

  pub record IsYoung : Type 0 where
    pub created : ℕ
    pub present : ℕ
    pub read : p.date_parse o.created_at ≡ some created
    pub read_now : p.date_parse now ≡ some present
    pub early : present ≤ created + 1800000

  -- The owner wrote its file on this host more than thirty minutes ago, and its process is gone.
  pub record IsAbandoned : Type 0 where
    pub old : IsOld
    pub here : o.hostname ≡ host.hostname
    pub gone : host.pid_alive o.pid ≡ false

  -- The owner is of another host, or its process lives, or it wrote its file at most thirty minutes ago.
  abbrev pub IsInUse : Type 0
  IsInUse = (o.hostname ≢ host.hostname) ⊎ (host.pid_alive o.pid ≡ true) ⊎ IsYoung

  pub IsAbandoned-eligible :
      IsAbandoned
      → (is_recovery_eligible p o now host.hostname && not (host.pid_alive o.pid)) ≡ true
  unfolding is_recovery_eligible
  IsAbandoned-eligible a =
      let same : (o.hostname === host.hostname) ≡ true =
        subst (λ t. (o.hostname === t) ≡ true) a.here (===_refl o.hostname) in
      rw (a.old.read, a.old.read_now, same, a.gone) (ground (arith, a.old.late))

  away_from_host : o.hostname ≢ host.hostname → (o.hostname === host.hostname) ≡ false
  away_from_host other = elim (Bool-cases (o.hostname === host.hostname)) [
    | inl same ↦ absurd (other (eq_of_=== o.hostname host.hostname same))
    | inr differ ↦ differ
  ]

  pub IsInUse-eligible :
      IsInUse → (is_recovery_eligible p o now host.hostname && not (host.pid_alive o.pid)) ≡ false
  unfolding is_recovery_eligible
  IsInUse-eligible (inl other) = ground (arith, away_from_host other)
  IsInUse-eligible (inr (inl alive)) = ground (arith, alive)
  IsInUse-eligible (inr (inr young)) = rw (young.read, young.read_now) (ground (arith, young.early))
