-- ===== src/Ingest/Approvals/Prompt.antt =====
-- src/ingest/approvals/prompt.ts: the prompts that ask a person, and the run of a test fixture, which
-- hands its own prompts out and is disposed of when nobody holds a lease of it.
use web_comunidad_solar.Prelude.{
  ℕ, ◌+◌, ◌-◌, ◌==◌, ltb, Bool, true, not, Option, none, some, List, [], ◌∷◌, ◌++◌, Text, codes,
  ◌===◌, if◌then◌else◌,
}
use web_comunidad_solar.Ingest.Failure.{
  Result, ok, err, ◌>>=◌, ◌>>◌, throw_if, or_throw, fixture_released, fixture_root_invalid,
  fixture_wrong_clone, fixture_wrong_state, fixture_state_unsafe, prompt_not_authorised,
}
use web_comunidad_solar.Ingest.Approvals.Approval.{Environment, production, test, Gate}

pub data Issuer : Type 0 where
  controller fixture : Issuer

pub record ApprovalConfirmation : Type 0 where
  pub gate : Gate
  pub subject_sha256 : Text
  pub summary : Text

pub record ApprovalPrompt : Type 0 where
  pub is_tty : Bool
  pub environment : Environment
  pub issuer : Issuer
  pub fixture_project_root : Option Text
  pub confirm : ApprovalConfirmation → Text
  -- `beforePersist`; a prompt without it has `ok tt`
  pub before_persist : Result (Unit {0})

-- How far `dispose` has come: it was not called, it waits for `resolveIdleLeases`, it goes on behind that
-- wait, or the clone and its parent directory are gone.
pub data Disposal : Type 0 where
  not_asked waiting going_on finished : Disposal

-- A fixture run: its clone, its state, and the prompts of the capabilities that it handed out. A
-- capability is named by the number of those that were handed out before it.
pub record FixtureRun : Type 0 where
  pub repository_root : Text
  pub closing : Bool
  pub active_leases : ℕ
  -- the calls of `createPrompt` that wait for the check of the clone
  pub preparing : ℕ
  pub handed_out : ℕ
  pub prompts : List (ℕ × ApprovalPrompt)
  pub disposal : Disposal

-- What the file system answers while a fixture prompt is checked.
pub record FixtureView : Type 0 where
  -- `assertOwnedFixtureClone`: the clone is the one that the run made
  pub owned_clone : Result (Unit {0})
  -- `realpath(options.repositoryRoot)`
  pub real_repository_root : Option Text
  -- `resolve(options.stateRoot ?? "")`
  pub state_root : Text
  -- `assertSafeStateRoot`: the state is absent or a directory that is no link
  pub state_is_safe : Bool

-- `createPrompt` up to its wait for the check of the clone
unfoldable pub begin_create_prompt : FixtureRun → Result (Unit {0}) × FixtureRun
begin_create_prompt run =
    if run.closing
    then (err fixture_released, run)
    else (ok tt, record run { preparing = run.preparing + 1 })

abbrev pub fixture_prompt : Text → Bool → Text → Result (Unit {0}) → ApprovalPrompt
fixture_prompt root is_tty answer before_persist = record {
  is_tty = is_tty;
  environment = test;
  issuer = fixture;
  fixture_project_root = some root;
  confirm = λ confirmation. answer;
  before_persist = before_persist;
}

-- `createPrompt` behind that wait, which does not look at `closing` again
unfoldable pub finish_create_prompt :
    Result (Unit {0}) → Bool → Text → Result (Unit {0}) → FixtureRun → Result ℕ × FixtureRun
finish_create_prompt (err e) is_tty answer before_persist run =
    (err e, record run { preparing = run.preparing - 1 })
finish_create_prompt (ok u) is_tty answer before_persist run = (
  ok run.handed_out,
  record run {
    preparing = run.preparing - 1;
    handed_out = run.handed_out + 1;
    prompts =
        (run.handed_out, fixture_prompt run.repository_root is_tty answer before_persist)
        ∷ run.prompts;
  },
)

-- `dispose` up to its wait for the leases: no new lease, no capability. A second call changes nothing.
abbrev pub dispose_at : Disposal → FixtureRun → FixtureRun
dispose_at not_asked run = record run {
  closing = true;
  prompts = [];
  disposal = if ltb 0 run.active_leases then waiting else going_on;
}
dispose_at _ run = run

unfoldable pub begin_dispose : FixtureRun → FixtureRun
begin_dispose run = dispose_at run.disposal run

-- The removal behind that wait.
unfoldable pub finish_dispose : FixtureRun → FixtureRun
finish_dispose run = record run { disposal = finished }

abbrev pub lookup_prompt : ℕ → List (ℕ × ApprovalPrompt) → Option ApprovalPrompt
lookup_prompt n [] = none
lookup_prompt n ((m, prompt) ∷ prompts) = if n == m then some prompt else lookup_prompt n prompts

-- The prompt of the terminal: its two streams are terminals, and what is typed at it.
unfoldable pub production_prompt : Bool → (ApprovalConfirmation → Text) → ApprovalPrompt
production_prompt is_tty typed = record {
  is_tty = is_tty;
  environment = production;
  issuer = controller;
  fixture_project_root = none;
  confirm = typed;
  before_persist = ok tt;
}

-- `approvalPrompt`: the prompt of the terminal without a capability
unfoldable pub approval_prompt : ApprovalPrompt → Option ℕ → FixtureRun → Result ApprovalPrompt
approval_prompt terminal none run = ok terminal
approval_prompt terminal (some n) run = or_throw (lookup_prompt n run.prompts) prompt_not_authorised

abbrev lease_of : Option Text → FixtureRun → Result (Unit {0}) × FixtureRun
lease_of none run = (ok tt, run)
lease_of (some root) run =
    if run.closing
    then (err fixture_released, run)
    else (ok tt, record run { active_leases = run.active_leases + 1 })

unfoldable pub acquire_approval_lease : ApprovalPrompt → FixtureRun → Result (Unit {0}) × FixtureRun
acquire_approval_lease prompt run = lease_of prompt.fixture_project_root run

-- `resolveIdleLeases?.()`
abbrev pub woken : Disposal → Disposal
woken waiting = going_on
woken d = d

abbrev pub release_lease : FixtureRun → FixtureRun
release_lease run =
    let left = run.active_leases - 1 in
    record run {
      active_leases = left;
      disposal = if left == 0 then woken run.disposal else run.disposal;
    }

abbrev release_of : Option Text → FixtureRun → FixtureRun
release_of none run = run
release_of (some root) run = release_lease run

-- The function that `acquireLease` returns, at its first call.
unfoldable pub release_approval_lease : ApprovalPrompt → FixtureRun → FixtureRun
release_approval_lease prompt run = release_of prompt.fixture_project_root run

abbrev check_fixture_root : Text → FixtureView → FixtureRun → Result (Unit {0})
check_fixture_root root view run = do
  throw_if run.closing fixture_released
  view.owned_clone
  repository_root ← or_throw view.real_repository_root fixture_root_invalid
  throw_if (not (repository_root === root)) fixture_wrong_clone
  throw_if (not (view.state_root === root ++ codes "/.change-state")) fixture_wrong_state
  throw_if (not view.state_is_safe) fixture_state_unsafe

abbrev check_state_root : Option Text → FixtureView → FixtureRun → Result (Unit {0})
check_state_root none view run = ok tt
check_state_root (some root) view run = check_fixture_root root view run

unfoldable pub assert_prompt_state_root :
    ApprovalPrompt → FixtureView → FixtureRun → Result (Unit {0})
assert_prompt_state_root prompt view run = check_state_root prompt.fixture_project_root view run
