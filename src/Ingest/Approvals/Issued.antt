-- ===== src/Ingest/Approvals/Issued.antt =====
-- What an approval that was issued rests on.
use web_comunidad_solar.Prelude.{
  ℕ, ◌+◌, ◌≡◌, refl, sym, subst, arith, ==_refl, ===_refl, eq_of_===, true, Text, take,
}
use web_comunidad_solar.Json.{canonical_json}
use web_comunidad_solar.Ingest.Failure.{Result, ok, err}
use web_comunidad_solar.Ingest.Effect.{>>=-steps, lift-steps, finally-steps}
use web_comunidad_solar.Ingest.Disk.{Fault, works, fails_before, fails_after}
use web_comunidad_solar.Ingest.Plan.{ChangePlan}
use web_comunidad_solar.Ingest.Approvals.Approval.{
  Gate, gate_1, gate_2, ApprovalRecord, approval_json, is_approval,
}
use web_comunidad_solar.Ingest.Approvals.Baseline.{protected_main_baseline}
use web_comunidad_solar.Ingest.Approvals.Prompt.{ApprovalPrompt, FixtureRun}
use web_comunidad_solar.Ingest.Approvals.Office.{
  ApprovalEntry, no_entry, file, unsafe_entry, ApprovalFile, approval_file, provenance_file, Office,
  file_number, Surroundings, Desk, put_entry, write_approval_file,
}
use web_comunidad_solar.Ingest.Approvals.Provenance.{provenance_json}
use web_comunidad_solar.Ingest.Approvals.Sealed.{signed_approval_provenance}
use web_comunidad_solar.Ingest.Approvals.Verify.{is_person, assert_actor}
use web_comunidad_solar.Ingest.Approvals.Service.{
  assert_state_root, assert_issuance_baseline, confirm, persist_approval, valid_approval,
  take_lease, release, under_lease,
}

write_approval_file-works :
    (faults : ℕ → Fault) (id : Text) (f : ApprovalFile) (t : Text) (w u : Office)
    → write_approval_file faults id f t w ≡ (ok tt, u)
    → u ≡ put_entry id f (file t 1) (record w { writes = w.writes + 1 })
unfolding write_approval_file
write_approval_file-works faults id f t w u h = from (w.entries id f) refl (faults w.writes) refl
  where
    from :
        (x : ApprovalEntry)
        → w.entries id f ≡ x
        → (y : Fault) → faults w.writes ≡ y
        → u ≡ put_entry id f (file t 1) (record w { writes = w.writes + 1 })
    from no_entry e works g = ground (arith, e, g, h)
    from (file t' n) e works g = ground (arith, e, g, h)
    from unsafe_entry e y g = absurd (ground (arith, e, g, h))
    from no_entry e fails_before g = absurd (ground (arith, e, g, h))
    from no_entry e fails_after g = absurd (ground (arith, e, g, h))
    from (file t' n) e fails_before g = absurd (ground (arith, e, g, h))
    from (file t' n) e fails_after g = absurd (ground (arith, e, g, h))

put_entry-same :
    (id : Text) (f : ApprovalFile) (e : ApprovalEntry) (w : Office)
    → (put_entry id f e w).entries id f ≡ e
unfolding put_entry
put_entry-same id f e w = rw (===_refl id, ==_refl (file_number f)) refl

put_entry-provenance :
    (id : Text) (g : Gate) (e : ApprovalEntry) (w : Office)
    → (put_entry id (provenance_file g) e w).entries id (approval_file g)
      ≡ w.entries id (approval_file g)
unfolding put_entry
put_entry-provenance id gate_1 e w = rw (===_refl id) refl
put_entry-provenance id gate_2 e w = rw (===_refl id) refl

module _ (s : Surroundings) where
  -- The two files that an approval leaves.
  pub record IsKept (r : ApprovalRecord) (prompt : ApprovalPrompt)
      (entries : Text → ApprovalFile → ApprovalEntry) : Type 0 where
    pub approval :
        entries r.change_id (approval_file r.gate) ≡ file (canonical_json (approval_json r)) 1
    pub provenance :
        entries r.change_id (provenance_file r.gate)
        ≡ file (canonical_json (provenance_json (signed_approval_provenance s r prompt))) 1

  pub persist_approval-IsKept :
      (r x : ApprovalRecord) (prompt : ApprovalPrompt) (w u : Office)
      → persist_approval s r prompt w ≡ (ok x, u)
      → (x ≡ r) × IsKept r prompt u.entries
  unfolding persist_approval
  persist_approval-IsKept r x prompt w u h =
      let (ready, w1, rooted, h1) = >>=-steps (assert_state_root s prompt) _ w u x h in
      let (hooked, before, h2) = lift-steps prompt.before_persist _ w1 u x h1 in
      let (first, w2, approval, h3) =
        >>=-steps
          (write_approval_file s.fault r.change_id (approval_file r.gate)
            (canonical_json (approval_json r)))
          _ w1 u x h2 in
      let (second, w3, provenance, h4) =
        >>=-steps
          (write_approval_file s.fault r.change_id (provenance_file r.gate)
            (canonical_json (provenance_json (signed_approval_provenance s r prompt))))
          _ w2 u x h3 in
      let e2 =
        write_approval_file-works s.fault r.change_id (approval_file r.gate) _ w1 w2 approval in
      let e3 =
        write_approval_file-works s.fault r.change_id (provenance_file r.gate) _ w2 w3 provenance in
      let e : w3 ≡ u = ground (arith, h4) in
      (
        ground (arith, h4),
        record {
          approval =
              rw (sym e, e3, put_entry-provenance r.change_id r.gate _ _, e2)
                (put_entry-same r.change_id (approval_file r.gate) _ _);
          provenance = rw (sym e, e3) (put_entry-same r.change_id (provenance_file r.gate) _ _);
        },
      )

  pub under_lease-steps :
      (prompt : ApprovalPrompt) (issue : Desk ApprovalRecord) (w u : Office) (r : ApprovalRecord)
      → under_lease s prompt issue w ≡ (ok r, u)
      → (before after : FixtureRun) × (v : Office) × (issue (record w { run = before }) ≡ (ok r, v))
        × (record v { run = after } ≡ u)
  unfolding under_lease
  under_lease-steps prompt issue w u r h =
      let (ready, w1, taken, h1) = >>=-steps (take_lease s prompt) _ w u r h in
      let (v, issued, released) = finally-steps issue (release s prompt) w1 u r h1 in
      let shape : record w { run = w1.run } ≡ w1 = ground (arith, taken) in
      (w1.run, u.run, v, rw shape issued, ground (arith, released))

  pub assert_issuance_baseline-eq-ok :
      (plan : ChangePlan) (baseline : Text)
      → assert_issuance_baseline s plan ≡ ok baseline
      → (protected_main_baseline s.checkout ≡ ok plan.baseline_commit)
        × (plan.baseline_commit ≡ baseline)
  unfolding assert_issuance_baseline
  assert_issuance_baseline-eq-ok plan baseline h = from (protected_main_baseline s.checkout) refl
    where
      from :
          (x : Result Text)
          → protected_main_baseline s.checkout ≡ x
          → (protected_main_baseline s.checkout ≡ ok plan.baseline_commit)
            × (plan.baseline_commit ≡ baseline)
      from (err f) e = absurd (ground (arith, e, h))
      from (ok main) e =
          let at_main : plan.baseline_commit ≡ main = eq_of_=== _ _ (ground (arith, e, h)) in
          (rw at_main e, ground (arith, e, h, at_main))

  pub confirm-eq-ok :
      (prompt : ApprovalPrompt) (g : Gate) (subject summary : Text)
      → confirm s prompt g subject summary ≡ ok tt
      → (prompt.is_tty ≡ true)
        × (prompt.confirm (record { gate = g; subject_sha256 = subject; summary = summary })
            ≡ take 12 subject)
  unfolding confirm
  confirm-eq-ok prompt g subject summary h = (ground (arith, h), eq_of_=== _ _ (ground (arith, h)))

  pub valid_approval-eq-ok :
      (r x : ApprovalRecord) → valid_approval s r ≡ ok x → (is_approval r ≡ true) × (x ≡ r)
  valid_approval-eq-ok r x h = (ground (arith, h), ground (arith, h))

  pub assert_actor-eq-ok : (actor : Text) → assert_actor s actor ≡ ok tt → is_person s actor ≡ true
  unfolding assert_actor
  assert_actor-eq-ok actor h = ground (arith, h)

  -- Giving the lease back leaves the files.
  pub IsKept-released :
      (r : ApprovalRecord) (prompt : ApprovalPrompt) (v u : Office) (after : FixtureRun)
      → record v { run = after } ≡ u
      → IsKept r prompt v.entries
      → IsKept r prompt u.entries
  IsKept-released r prompt v u after e kept = subst (λ x. IsKept r prompt x.entries) e kept
