-- ===== src/Ingest/Approvals/Steps.antt =====
-- The life of a fixture run of src/ingest/approvals/prompt.ts as steps: prompts are asked for and handed
-- out, leases are taken and given back, and the run is disposed of.
use web_comunidad_solar.Prelude.{ℕ, ◌<◌, ◌≡◌, Bool, false, some, [], Text}
use web_comunidad_solar.Ingest.Failure.{Result, ok}
use web_comunidad_solar.Ingest.Approvals.Prompt.{
  ApprovalPrompt, FixtureRun, not_asked, going_on, begin_create_prompt, finish_create_prompt,
  begin_dispose, finish_dispose, acquire_approval_lease, release_approval_lease,
}

-- `createFixtureApprovalRun` for a clone
unfoldable pub fresh_run : Text → FixtureRun
fresh_run root = record {
  repository_root = root;
  closing = false;
  active_leases = 0;
  preparing = 0;
  handed_out = 0;
  prompts = [];
  disposal = not_asked;
}

-- The prompt is one of the run.
abbrev pub IsOf : FixtureRun → ApprovalPrompt → Type 0
IsOf run prompt = prompt.fixture_project_root ≡ some run.repository_root

-- A step of a run. A call of `createPrompt` that passed its check is answered later, and whatever the
-- check of the clone came to. A lease is given back once, so that one is held when it is.
pub data Step : FixtureRun → FixtureRun → Type 0 where
  asks : {run next : FixtureRun} → begin_create_prompt run ≡ (ok tt, next) → Step run next
  hands_out :
      {run next : FixtureRun} (owned_clone : Result (Unit {0})) (is_tty : Bool) (answer : Text)
      (before_persist : Result (Unit {0})) (given : Result ℕ)
      → 0 < run.preparing
      → finish_create_prompt owned_clone is_tty answer before_persist run ≡ (given, next)
      → Step run next
  takes :
      {run next : FixtureRun} (prompt : ApprovalPrompt)
      → IsOf run prompt
      → acquire_approval_lease prompt run ≡ (ok tt, next)
      → Step run next
  gives_back :
      {run : FixtureRun} (prompt : ApprovalPrompt)
      → IsOf run prompt
      → 0 < run.active_leases
      → Step run (release_approval_lease prompt run)
  disposes : {run : FixtureRun} → Step run (begin_dispose run)
  removes : {run : FixtureRun} → run.disposal ≡ going_on → Step run (finish_dispose run)

pub data Reach : FixtureRun → FixtureRun → Type 0 where
  here : {run : FixtureRun} → Reach run run
  onward : {run next last : FixtureRun} → Step run next → Reach next last → Reach run last

pub Reach-joined : {run next last : FixtureRun} → Reach run next → Reach next last → Reach run last
Reach-joined here more = more
Reach-joined (onward step rest) more = onward step (Reach-joined rest more)
