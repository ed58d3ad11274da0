-- ===== src/Ingest/Approvals/Disposal.antt =====
-- The states that a fixture run of src/ingest/approvals/prompt.ts comes to, and its removal.
use web_comunidad_solar.Prelude.{
  ℕ, zero, suc, ◌+◌, ◌-◌, ◌<◌, ◌≡◌, ◌⊎◌, inl, inr, refl, sym, ap, subst, arith, Bool, true, false,
  Bool-cases, some, List, Text, All, ◌==◌, ltb, if◌then◌else◌,
}
use web_comunidad_solar.Ingest.Failure.{Result, ok, err}
use web_comunidad_solar.Ingest.Approvals.Prompt.{
  ApprovalPrompt, FixtureRun, Disposal, not_asked, waiting, going_on, finished, begin_create_prompt,
  finish_create_prompt, begin_dispose, finish_dispose, acquire_approval_lease,
  release_approval_lease, release_lease, woken, dispose_at,
}
use web_comunidad_solar.Ingest.Approvals.Steps.{
  fresh_run, IsOf, Step, asks, hands_out, takes, gives_back, disposes, removes, Reach, here, onward,
}

-- What the progress of `dispose` says of the run: a call that waits has a lease to wait for.
abbrev pub IsInPhase : Disposal → Bool → ℕ → Type 0
IsInPhase not_asked closing leases = closing ≡ false
IsInPhase waiting closing leases = (closing ≡ true) × (0 < leases)
IsInPhase going_on closing leases = (closing ≡ true) × (leases ≡ 0)
IsInPhase finished closing leases = (closing ≡ true) × (leases ≡ 0)

abbrev AreOf : Text → List (ℕ × ApprovalPrompt) → Type 0
AreOf root prompts = All (λ e. e.1.fixture_project_root ≡ some root) prompts

pub record IsOrderly (run : FixtureRun) : Type 0 where
  pub phase : IsInPhase run.disposal run.closing run.active_leases
  pub own : AreOf run.repository_root run.prompts

fresh_run-IsOrderly : (root : Text) → IsOrderly (fresh_run root)
unfolding fresh_run
fresh_run-IsOrderly root = record { phase = refl; own = tt }

begin_create_prompt-IsOrderly :
    (run next : FixtureRun)
    → begin_create_prompt run ≡ (ok tt, next)
    → IsOrderly run
    → IsOrderly next
unfolding begin_create_prompt
begin_create_prompt-IsOrderly run next h o = elim (Bool-cases run.closing) [
  | inl closed ↦ absurd (ground (arith, closed, h))
  | inr opened ↦
      subst IsOrderly {x = record run { preparing = run.preparing + 1 }} (ground (arith, opened, h))
        (record { phase = o.phase; own = o.own })
]

finish_create_prompt-IsOrderly :
    (run next : FixtureRun) (owned_clone : Result (Unit {0})) (is_tty : Bool) (answer : Text)
    (before_persist : Result (Unit {0})) (given : Result ℕ)
    → finish_create_prompt owned_clone is_tty answer before_persist run ≡ (given, next)
    → IsOrderly run
    → IsOrderly next
unfolding finish_create_prompt
finish_create_prompt-IsOrderly run next (err e) is_tty answer before_persist given h o =
    subst IsOrderly (ap (λ x. x.1) h) (record { phase = o.phase; own = o.own })
finish_create_prompt-IsOrderly run next (ok u) is_tty answer before_persist given h o =
    subst IsOrderly (ap (λ x. x.1) h) (record { phase = o.phase; own = (refl, o.own) })

acquire_approval_lease-eq-ok :
    (run next : FixtureRun) (prompt : ApprovalPrompt)
    → IsOf run prompt
    → acquire_approval_lease prompt run ≡ (ok tt, next)
    → (run.closing ≡ false) × (record run { active_leases = run.active_leases + 1 } ≡ next)
unfolding acquire_approval_lease
acquire_approval_lease-eq-ok run next prompt own h = elim (Bool-cases run.closing) [
  | inl closed ↦ absurd (ground (arith, own, closed, h))
  | inr opened ↦ (opened, ground (arith, own, opened, h))
]

-- Before `dispose` is called the number of leases does not matter.
open_phase :
    (d : Disposal) (closing : Bool) (m n : ℕ)
    → IsInPhase d closing m
    → closing ≡ false
    → IsInPhase d closing n
open_phase not_asked closing m n p e = p
open_phase waiting closing m n p e = absurd (ground (arith, p.0, e))
open_phase going_on closing m n p e = absurd (ground (arith, p.0, e))
open_phase finished closing m n p e = absurd (ground (arith, p.0, e))

release_lease-phase :
    (d : Disposal) (closing : Bool) (m n : ℕ)
    → m ≡ n + 1
    → IsInPhase d closing m
    → IsInPhase (if n == 0 then woken d else d) closing n
release_lease-phase not_asked closing m n e p = elim (Bool-cases (n == 0)) [
  | inl last ↦ rw last p
  | inr more ↦ rw more p
]
release_lease-phase waiting closing m n e p = elim (Bool-cases (n == 0)) [
  | inl last ↦ rw last (p.0, ground (arith, last))
  | inr more ↦ rw more (p.0, ground (arith, more))
]
release_lease-phase going_on closing m n e p = absurd (ground (arith, e, p.1))
release_lease-phase finished closing m n e p = absurd (ground (arith, e, p.1))

release_lease-IsOrderly :
    (run : FixtureRun) → 0 < run.active_leases → IsOrderly run → IsOrderly (release_lease run)
release_lease-IsOrderly run held o = record {
  phase =
      release_lease-phase run.disposal run.closing run.active_leases (run.active_leases - 1)
        (ground (arith, held)) o.phase;
  own = o.own;
}

release_approval_lease-of :
    (run : FixtureRun) (prompt : ApprovalPrompt)
    → IsOf run prompt
    → release_approval_lease prompt run ≡ release_lease run
unfolding release_approval_lease
release_approval_lease-of run prompt own = rw own refl

asked_phase : (n : ℕ) → IsInPhase (if ltb 0 n then waiting else going_on) true n
asked_phase n = elim (Bool-cases (ltb 0 n)) [
  | inl held ↦ rw held (refl, ground (arith, held))
  | inr idle ↦ rw idle (refl, ground (arith, idle))
]

dispose_at-IsOrderly :
    (run : FixtureRun) (d : Disposal) → IsOrderly run → IsOrderly (dispose_at d run)
dispose_at-IsOrderly run not_asked o = record { phase = asked_phase run.active_leases; own = tt }
dispose_at-IsOrderly run waiting o = o
dispose_at-IsOrderly run going_on o = o
dispose_at-IsOrderly run finished o = o

Step-IsOrderly : {run next : FixtureRun} → Step run next → IsOrderly run → IsOrderly next
unfolding begin_dispose finish_dispose
Step-IsOrderly {run = run} {next = next} (asks h) o = begin_create_prompt-IsOrderly run next h o
Step-IsOrderly {run = run} {next = next} (hands_out owned is_tty answer before given awaited h) o =
    finish_create_prompt-IsOrderly run next owned is_tty answer before given h o
Step-IsOrderly {run = run} {next = next} (takes prompt own h) o =
    let (opened, e) = acquire_approval_lease-eq-ok run next prompt own h in
    subst IsOrderly e (record {
      phase =
          open_phase run.disposal run.closing run.active_leases (run.active_leases + 1) o.phase
            opened;
      own = o.own;
    })
Step-IsOrderly {run = run} (gives_back prompt own held) o =
    subst IsOrderly (sym (release_approval_lease-of run prompt own))
      (release_lease-IsOrderly run held o)
Step-IsOrderly {run = run} disposes o = dispose_at-IsOrderly run run.disposal o
Step-IsOrderly {run = run} (removes e) o = record {
  phase = subst (λ d. IsInPhase d run.closing run.active_leases) e o.phase;
  own = o.own;
}

Reach-IsOrderly : {run last : FixtureRun} → Reach run last → IsOrderly run → IsOrderly last
Reach-IsOrderly here o = o
Reach-IsOrderly (onward step more) o = Reach-IsOrderly more (Step-IsOrderly step o)

-- Whatever steps are taken, and whenever `dispose` is called among them: when the clone of a fixture run
-- is removed, the run is closing and no lease of it is held.
pub Reach-removed :
    (root : Text) (run : FixtureRun)
    → Reach (fresh_run root) run
    → run.disposal ≡ finished
    → (run.closing ≡ true) × (run.active_leases ≡ 0)
Reach-removed root run reach removed =
    let o = Reach-IsOrderly reach (fresh_run-IsOrderly root) in
    subst (λ d. IsInPhase d run.closing run.active_leases) removed o.phase

going_on-idle :
    (run : FixtureRun) (d : Disposal)
    → run.disposal ≡ d
    → IsInPhase d run.closing run.active_leases
    → run.closing ≡ true
    → run.active_leases ≡ 0
    → (run.disposal ≡ going_on) ⊎ (run.disposal ≡ finished)
going_on-idle run not_asked e p closing idle = absurd (ground (arith, p, closing))
going_on-idle run waiting e p closing idle = absurd (ground (arith, p.1, idle))
going_on-idle run going_on e p closing idle = inl e
going_on-idle run finished e p closing idle = inr e

-- A run that gives `n` leases of a prompt back, one after the other.
abbrev pub given_back : ApprovalPrompt → ℕ → FixtureRun → FixtureRun
given_back prompt zero run = run
given_back prompt (suc n) run = given_back prompt n (release_approval_lease prompt run)

-- The steps from `run` to `last` leave no lease, and `dispose` is past its wait.
pub record IsReleased (run last : FixtureRun) : Type 0 where
  pub reach : Reach run last
  pub none_held : last.active_leases ≡ 0
  pub past_wait : (last.disposal ≡ going_on) ⊎ (last.disposal ≡ finished)

given_back-IsReleased :
    (prompt : ApprovalPrompt) (n : ℕ) (run : FixtureRun)
    → IsOf run prompt
    → IsOrderly run
    → run.closing ≡ true
    → run.active_leases ≡ n
    → IsReleased run (given_back prompt n run)
given_back-IsReleased prompt zero run own o closing idle = record {
  reach = here;
  none_held = idle;
  past_wait = going_on-idle run run.disposal refl o.phase closing idle;
}
given_back-IsReleased prompt (suc n) run own o closing leases =
    let held : 0 < run.active_leases = ground (arith, leases) in
    let same = release_approval_lease-of run prompt own in
    let rest =
      given_back-IsReleased prompt n (release_lease run) own (release_lease-IsOrderly run held o)
        closing (ground (arith, leases)) in
    let step = subst (λ x. Step run x) same (gives_back prompt own held) in
    subst (λ x. IsReleased run (given_back prompt n x)) (sym same)
      (record {
        reach = onward step rest.reach;
        none_held = rest.none_held;
        past_wait = rest.past_wait;
      })

-- From every state that a run can come to after `dispose` was called, giving the leases that are held back,
-- one after the other, is a way of the run that leaves no lease and ends the wait of `dispose`: it goes on
-- to the removal, or has come to its end already.
pub Reach-disposed :
    (root : Text) (run : FixtureRun) (prompt : ApprovalPrompt)
    → Reach (fresh_run root) run
    → run.closing ≡ true
    → IsOf run prompt
    → IsReleased run (given_back prompt run.active_leases run)
Reach-disposed root run prompt reach closing own =
    given_back-IsReleased prompt run.active_leases run own
      (Reach-IsOrderly reach (fresh_run-IsOrderly root)) closing refl
