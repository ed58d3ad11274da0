-- ===== src/Ingest/Failure.antt =====
-- The errors that the modelled modules of src/ingest throw, one constructor for each message, and
-- computations that may throw one.
use web_comunidad_solar.Prelude.{◌≡◌, refl, ap, Bool, true, false, Option, none, some}

pub data Failure : Type 0 where
  -- src/ingest/journal.ts
  sequence_not_contiguous hash_chain_broken must_start_received state_chain_broken : Failure
  recovery_changes_state invalid_retry transition_not_allowed invalid_event : Failure
  event_not_canonical journal_truncated journal_blank_line journal_not_json : Failure
  -- src/ingest/state-store.ts
  clock_invalid state_not_object state_extra_fields state_not_canonical state_not_json : Failure
  not_a_regular_file write_failed no_such_file lock_owner_invalid own_lock_missing : Failure
  own_lock_changed : Failure
  already_exists change_locked journal_without_initial_state state_missing : Failure
  journal_not_at_revision state_differs_from_journal transition_type_required : Failure
  retry_reserved state_transition_not_allowed orphaned_journal initial_must_be_received : Failure
  only_failed_can_retry : Failure
  -- src/ingest/approvals/service.ts
  provenance_not_json provenance_not_canonical provenance_malformed provenance_unsafe : Failure
  provenance_missing provenance_mismatch repository_unsafe git_unsafe git_not_independent : Failure
  main_not_a_commit main_unreadable baseline_differs_from_plan actor_not_a_person : Failure
  not_interactive approval_clock_invalid plan_invalid plan_hash_differs candidate_invalid : Failure
  candidate_not_of_plan gate_1_unsafe gate_1_missing gate_1_not_json approval_invalid : Failure
  confirmation_differs environment_differs baseline_moved plan_not_approved : Failure
  candidate_not_approved : Failure
  -- src/ingest/approvals/prompt.ts
  fixture_released fixture_changed fixture_root_invalid fixture_wrong_clone : Failure
  fixture_wrong_state fixture_state_unsafe prompt_not_authorised persist_hook_failed : Failure
  -- src/ingest/dossier-integrity.ts
  evidence_not_sealed artifact_not_kept index_not_contiguous preimage_invalid : Failure
  validation_repeated projection_mismatch artifact_unsafe path_repeated : Failure
  -- src/ingest/importers/common.ts and src/ingest/planning
  request_invalid request_hash_differs baseline_unsafe publication_not_prepared : Failure
  manifest_not_pinned manifest_not_json manifest_invalid manifest_route_invalid : Failure
  manifest_kind_invalid output_path_unsafe criterion_without_evidence plan_not_of_request : Failure
  -- `AggregateError` of a failure and of the failure of its clean-up
  aggregate : Failure → Failure → Failure

pub data Result {ℓ} (A : Type ℓ) : Type ℓ where
  ok : A → Result A
  err : Failure → Result A

infixl 5 ◌>>=◌ ◌>>◌
abbrev pub ◌>>=◌ {ℓ κ} : {A : Type ℓ} {B : Type κ} → Result A → (A → Result B) → Result B
ok a >>= k = k a
err e >>= k = err e

abbrev pub ◌>>◌ {ℓ} : {B : Type ℓ} → Result (Unit {0}) → Result B → Result B
m >> k = m >>= λ _. k

-- `if (bad) throw e`
abbrev pub throw_if : Bool → Failure → Result (Unit {0})
throw_if true e = err e
throw_if false e = ok tt

abbrev pub or_throw {ℓ} : {A : Type ℓ} → Option A → Failure → Result A
or_throw none e = err e
or_throw (some a) e = ok a

pub >>=-eq-ok {ℓ κ} :
    {A : Type ℓ} {B : Type κ} (m : Result A) (k : A → Result B) {b : B}
    → (m >>= k) ≡ ok b
    → (a : A) × (m ≡ ok a) × (k a ≡ ok b)
>>=-eq-ok (ok a) k h = (a, refl, h)
>>=-eq-ok (err e) k h = cc

pub throw_if-eq-ok : (b : Bool) (e : Failure) → throw_if b e ≡ ok tt → b ≡ false
throw_if-eq-ok true e h = cc
throw_if-eq-ok false e h = refl

pub >>=-assoc {ℓ κ ι} :
    {A : Type ℓ} {B : Type κ} {C : Type ι} (m : Result A) (f : A → Result B) (g : B → Result C)
    → ((m >>= f) >>= g) ≡ (m >>= λ a. f a >>= g)
>>=-assoc (ok a) f g = refl
>>=-assoc (err e) f g = refl

pub ok-injective {ℓ} : {A : Type ℓ} {a b : A} → ok a ≡ ok b → a ≡ b
ok-injective {A = A} {a = a} h = ap value h
  where
    value : Result A → A
    value (ok x) = x
    value (err e) = a
