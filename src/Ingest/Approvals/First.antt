-- ===== src/Ingest/Approvals/First.antt =====
-- What the first gate of src/ingest/approvals/service.ts leaves for the second.
use web_comunidad_solar.Prelude.{ℕ, ◌≡◌, sym, subst, ◌∙◌, arith, ===_refl, true, Option, some, Text}
use web_comunidad_solar.Json.{canonical_json}
use web_comunidad_solar.Ingest.Failure.{ok, approval_clock_invalid, or_throw}
use web_comunidad_solar.Ingest.Effect.{>>=-steps, lift-steps}
use web_comunidad_solar.Ingest.Plan.{ChangePlan, plan_subject}
use web_comunidad_solar.Ingest.Approvals.Approval.{
  decode_approval-approval_json, gate_1, ApprovalRecord, approval_json, is_approval,
}
use web_comunidad_solar.Ingest.Approvals.Baseline.{protected_main_baseline}
use web_comunidad_solar.Ingest.Approvals.Prompt.{ApprovalPrompt, approval_prompt}
use web_comunidad_solar.Ingest.Approvals.Office.{
  ApprovalEntry, ApprovalFile, approval_1, approval_file, Office, Surroundings, terminal,
}
use web_comunidad_solar.Ingest.Approvals.Verify.{plan_of, is_person, assert_actor, verify_approval}
use web_comunidad_solar.Ingest.Approvals.Service.{
  assert_state_root, assert_issuance_baseline, approval_of_entry, confirm, valid_approval,
  gate_1_record, gate_1_summary, issue_gate_1, approve_gate_1,
}
use web_comunidad_solar.Ingest.Approvals.Issued.{
  IsKept, IsKept-released, persist_approval-IsKept, under_lease-steps,
  assert_issuance_baseline-eq-ok, confirm-eq-ok, valid_approval-eq-ok, assert_actor-eq-ok,
}

module _ (s : Surroundings) where
  -- `JSON.parse` reads what the program printed for an approval.
  abbrev pub Reads : ApprovalRecord → Type 0
  Reads r = s.platform.json_parse (canonical_json (approval_json r)) ≡ some (approval_json r)

  verify_approval-issued :
      (actor : Text) (plan : ChangePlan) (prompt : ApprovalPrompt) (subject at : Text)
      → is_person s actor ≡ true
      → plan_subject s.platform plan ≡ ok subject
      → is_approval (gate_1_record s prompt actor plan subject at) ≡ true
      → verify_approval s
          (gate_1_record s prompt actor plan subject at)
          (plan_of plan)
          plan.baseline_commit
        ≡ ok tt
  unfolding verify_approval
  verify_approval-issued actor plan prompt subject at person planned valid = ground (
    arith,
    valid,
    person,
    ===_refl plan.baseline_commit,
    planned,
    ===_refl plan.change_id,
    ===_refl subject,
  )

  issued_verifies :
      (actor : Text) (plan : ChangePlan) (prompt : ApprovalPrompt) (subject at : Text)
      (r : ApprovalRecord)
      → is_person s actor ≡ true
      → plan_subject s.platform plan ≡ ok subject
      → is_approval r ≡ true
      → r ≡ gate_1_record s prompt actor plan subject at
      → verify_approval s r (plan_of plan) plan.baseline_commit ≡ ok tt
  issued_verifies actor plan prompt subject at r person planned valid made =
      subst (λ y. verify_approval s y (plan_of plan) plan.baseline_commit ≡ ok tt) (sym made)
        (verify_approval-issued actor plan prompt subject at person planned
          (subst (λ y. is_approval y ≡ true) made valid))

  issued_read :
      (actor : Text) (plan : ChangePlan) (prompt : ApprovalPrompt) (subject at : Text)
      (r : ApprovalRecord) (entries : Text → ApprovalFile → ApprovalEntry)
      → is_approval r ≡ true
      → r ≡ gate_1_record s prompt actor plan subject at
      → Reads r
      → IsKept s r prompt entries
      → approval_of_entry s (entries plan.change_id approval_1) ≡ ok r
  issued_read actor plan prompt subject at r entries valid made reads kept =
      subst (λ y. approval_of_entry s (entries y.change_id (approval_file y.gate)) ≡ ok r) made
        (ground (arith, kept.approval, reads, decode_approval-approval_json r valid))

  issue_gate_1-issued :
      (actor : Text) (plan : ChangePlan) (subject : Text) (prompt : ApprovalPrompt) (w u : Office)
      (r : ApprovalRecord)
      → issue_gate_1 s actor plan subject prompt w ≡ (ok r, u)
      → (at : Text) × (is_approval r ≡ true)
        × (r ≡ gate_1_record s prompt actor plan subject at)
        × (prompt.is_tty ≡ true)
        × (protected_main_baseline s.checkout ≡ ok plan.baseline_commit)
        × IsKept s r prompt u.entries
  unfolding issue_gate_1 assert_state_root
  issue_gate_1-issued actor plan subject prompt w u r h =
      let (ready, w1, rooted, h1) = >>=-steps (assert_state_root s prompt) _ w u r h in
      let (baseline, stands, h2) = lift-steps (assert_issuance_baseline s plan) _ w1 u r h1 in
      let (main, same) = assert_issuance_baseline-eq-ok s plan baseline stands in
      let (v1, confirmed, h3) =
        lift-steps (confirm s prompt gate_1 subject (gate_1_summary s plan)) _ w1 u r h2 in
      let (attended, typed) =
        confirm-eq-ok s prompt gate_1 subject (gate_1_summary s plan) confirmed in
      let (at, clock, h4) = lift-steps (or_throw s.now approval_clock_invalid) _ w1 u r h3 in
      let (x, checked, h5) =
        lift-steps (valid_approval s (gate_1_record s prompt actor plan subject at)) _ w1 u r h4 in
      let (valid, made) =
        valid_approval-eq-ok s (gate_1_record s prompt actor plan subject at) x checked in
      let (kept, files) = persist_approval-IsKept s x r prompt w1 u h5 in
      (
        at,
        subst (λ y. is_approval y ≡ true) (sym (kept ∙ made)) valid,
        kept ∙ made,
        attended,
        main,
        subst (λ y. IsKept s y prompt u.entries) (sym kept) files,
      )

  -- If the first gate issues an approval, `main` stands at the baseline of the plan, the approval
  -- verifies for the plan there, its sealed provenance is on the disk, and, where `JSON.parse` reads the
  -- text of the approval, the second gate finds this very approval on the disk.
  pub approve_gate_1-IsKept :
      (actor : Text) (plan : ChangePlan) (capability : Option ℕ) (w u : Office) (r : ApprovalRecord)
      → approve_gate_1 s actor plan capability w ≡ (ok r, u)
      → Reads r
      → (prompt : ApprovalPrompt) × (approval_prompt (terminal s) capability w.run ≡ ok prompt)
        × (protected_main_baseline s.checkout ≡ ok plan.baseline_commit)
        × (verify_approval s r (plan_of plan) plan.baseline_commit ≡ ok tt)
        × (approval_of_entry s (u.entries plan.change_id approval_1) ≡ ok r)
        × IsKept s r prompt u.entries
  unfolding approve_gate_1
  approve_gate_1-IsKept actor plan capability w u r h reads =
      let (v1, person, h1) = lift-steps (assert_actor s actor) _ w u r h in
      let (subject, planned, h2) = lift-steps (plan_subject s.platform plan) _ w u r h1 in
      let (prompt, chosen, h3) =
        lift-steps (approval_prompt (terminal s) capability w.run) _ w u r h2 in
      let (before, after, v, issued, released) =
        under_lease-steps s prompt (issue_gate_1 s actor plan subject prompt) w u r h3 in
      let (at, valid, made, attended, main, kept) =
        issue_gate_1-issued actor plan subject prompt (record w { run = before }) v r issued in
      let left = IsKept-released s r prompt v u after released kept in
      (
        prompt,
        chosen,
        main,
        issued_verifies actor plan prompt subject at r (assert_actor-eq-ok s actor person) planned
            valid made,
        issued_read actor plan prompt subject at r u.entries valid made reads left,
        left,
      )
