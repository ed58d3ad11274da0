-- ===== src/Ingest/Effect.antt =====
-- Computations of src/ingest that may throw and that change a state: the settled result and the
-- state behind it.
use web_comunidad_solar.Prelude.{Bool, true, false, if◌then◌else◌, ◌≡◌, refl, arith}
use web_comunidad_solar.Ingest.Failure.{Failure, Result, ok, err, aggregate}

abbrev pub Effect : Type 0 → Type 0 → Type 0
Effect W A = W → Result A × W

module _ {W : Type 0} where
  abbrev continue : {A B : Type 0} → Result A → (A → Effect W B) → Effect W B
  continue (ok a) k w = k a w
  continue (err e) k w = (err e, w)

  infixl 5 ◌>>=◌ ◌>>◌
  abbrev pub ◌>>=◌ : {A B : Type 0} → Effect W A → (A → Effect W B) → Effect W B
  ◌>>=◌ m k w = let (r, w') = m w in continue r k w'

  abbrev pub ◌>>◌ : {B : Type 0} → Effect W (Unit {0}) → Effect W B → Effect W B
  m >> k = m >>= λ _. k

  abbrev pub pure : {A : Type 0} → A → Effect W A
  pure a w = (ok a, w)

  abbrev pub throw : {A : Type 0} → Failure → Effect W A
  throw e w = (err e, w)

  -- A computation that may throw and has no other effect.
  abbrev pub lift : {A : Type 0} → Result A → Effect W A
  lift r w = (r, w)

  -- `if (bad) throw e`
  abbrev pub reject_if : Bool → Failure → Effect W (Unit {0})
  reject_if b e w = if b then (err e, w) else (ok tt, w)

  -- `try { m } catch (error) { h }`
  abbrev recover : {A : Type 0} → Result A → (Failure → Effect W A) → Effect W A
  recover (ok a) h w = (ok a, w)
  recover (err e) h w = h e w

  abbrev pub try_catch : {A : Type 0} → Effect W A → (Failure → Effect W A) → Effect W A
  try_catch m h w = let (r, w') = m w in recover r h w'

  -- `try { cleanup } catch (again) { throw AggregateError } throw error`
  abbrev pub then_throw : {A : Type 0} → Effect W (Unit {0}) → Failure → Effect W A
  then_throw cleanup error w =
      let (r, w') = cleanup w in
      elim r [ ok u ↦ (err error, w') | err again ↦ (err (aggregate error again), w') ]

  -- The settled result of an action, to be looked at after a clean-up.
  abbrev pub settle : {A : Type 0} → Effect W A → Effect W (Result A)
  settle m w = let (r, w') = m w in (ok r, w')

  -- `try { m } finally { cleanup }` for a clean-up that does not throw
  abbrev pub finally : {A : Type 0} → Effect W A → (W → W) → Effect W A
  finally m cleanup w = let (r, w') = m w in (r, cleanup w')

module _ {W A B : Type 0} (m : Effect W A) (k : A → Effect W B) (w u : W) (b : B) where
  Steps : Type 0
  Steps = (a : A) × (v : W) × (m w ≡ (ok a, v)) × (k a v ≡ (ok b, u))

  steps_from : (x : Result A × W) → m w ≡ x → (m >>= k) w ≡ (ok b, u) → Steps
  unfolding Steps
  steps_from (ok a, v) e h = (a, v, e, ground (arith, e, h))
  steps_from (err f, v) e h = absurd (ground (arith, e, h))

  -- A sequence that succeeds has steps that succeed.
  pub >>=-steps :
      (m >>= k) w ≡ (ok b, u) → (a : A) × (v : W) × (m w ≡ (ok a, v)) × (k a v ≡ (ok b, u))
  unfolding Steps
  >>=-steps h = steps_from (m w) refl h

-- A step that only may throw, and what follows it.
pub lift-steps :
    {W : Type 0} {A B : Type 0} (r : Result A) (k : A → Effect W B) (w u : W) (b : B)
    → (lift r >>= k) w ≡ (ok b, u)
    → (a : A) × (r ≡ ok a) × (k a w ≡ (ok b, u))
lift-steps (ok a) k w u b h = (a, refl, h)
lift-steps (err f) k w u b h = absurd (ground (arith, h))

-- A guard that was passed, and what follows it.
pub reject_if-steps :
    {W B : Type 0} (c : Bool) (f : Failure) (m : Effect W B) (w u : W) (b : B)
    → (reject_if c f >> m) w ≡ (ok b, u)
    → (c ≡ false) × (m w ≡ (ok b, u))
reject_if-steps true f m w u b h = absurd (ground (arith, h))
reject_if-steps false f m w u b h = (refl, h)

pub finally-steps :
    {W A : Type 0} (m : Effect W A) (cleanup : W → W) (w u : W) (a : A)
    → finally m cleanup w ≡ (ok a, u)
    → (v : W) × (m w ≡ (ok a, v)) × (cleanup v ≡ u)
finally-steps {W = W} {A = A} m cleanup w u a h = from (m w) refl
  where
    from : (x : Result A × W) → m w ≡ x → (v : W) × (m w ≡ (ok a, v)) × (cleanup v ≡ u)
    from (r, v) e = (v, ground (arith, e, h), ground (arith, e, h))
