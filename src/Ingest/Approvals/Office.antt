-- ===== src/Ingest/Approvals/Office.antt =====
-- The files that approvals are kept in, one directory for each change, and what
-- src/ingest/approvals/service.ts asks of the world around it.
use web_comunidad_solar.Prelude.{ℕ, ◌+◌, ◌==◌, Bool, Option, Text, ◌===◌, if◌then◌else◌, ◌&&◌}
use web_comunidad_solar.Ingest.Failure.{ok, err, write_failed, not_a_regular_file}
use web_comunidad_solar.Ingest.Effect.{Effect}
use web_comunidad_solar.Ingest.Disk.{Fault, works, fails_before, fails_after}
use web_comunidad_solar.Ingest.Platform.{Platform}
use web_comunidad_solar.Ingest.Approvals.Approval.{Gate, gate_1, gate_2}
use web_comunidad_solar.Ingest.Approvals.Baseline.{Checkout}
use web_comunidad_solar.Ingest.Approvals.Prompt.{
  ApprovalConfirmation, ApprovalPrompt, FixtureRun, FixtureView, production_prompt,
}

pub data ApprovalEntry : Type 0 where
  no_entry : ApprovalEntry
  -- a regular file: the text that it decodes to, and the number of its links
  file : Text → ℕ → ApprovalEntry
  -- a symbolic link, a directory or another file that is not regular
  unsafe_entry : ApprovalEntry

-- `gate-N.json` and `gate-N.provenance.json`
pub data ApprovalFile : Type 0 where
  approval_1 approval_2 provenance_1 provenance_2 : ApprovalFile

abbrev pub approval_file : Gate → ApprovalFile
approval_file gate_1 = approval_1
approval_file gate_2 = approval_2

-- `approvalProvenancePath`
abbrev pub provenance_file : Gate → ApprovalFile
provenance_file gate_1 = provenance_1
provenance_file gate_2 = provenance_2

abbrev pub file_number : ApprovalFile → ℕ
file_number approval_1 = 1
file_number approval_2 = 2
file_number provenance_1 = 3
file_number provenance_2 = 4

pub record Office : Type 0 where
  pub entries : Text → ApprovalFile → ApprovalEntry
  pub writes : ℕ
  pub run : FixtureRun

-- What is asked of the runtime, of Git and of the person at the terminal.
pub record Surroundings : Type 0 where
  pub platform : Platform
  -- `createHmac("sha256", approvalProvenanceKey)` of a text, in hexadecimal
  pub hmac : Text → Text
  -- `toLocaleLowerCase("en-US")`
  pub lower_case : Text → Text
  pub checkout : Checkout
  pub view : FixtureView
  -- `stdin.isTTY === true && stdout.isTTY === true`
  pub is_tty : Bool
  -- what is typed at the terminal
  pub typed : ApprovalConfirmation → Text
  -- `now().toISOString()`; `none` where the clock gives no date
  pub now : Option Text
  pub fault : ℕ → Fault

abbrev pub terminal : Surroundings → ApprovalPrompt
terminal s = production_prompt s.is_tty s.typed

abbrev pub Desk : Type 0 → Type 0
Desk A = Effect Office A

unfoldable pub put_entry : Text → ApprovalFile → ApprovalEntry → Office → Office
put_entry id f e w = record w {
  entries = λ id' f'. if id' === id && file_number f' == file_number f then e else w.entries id' f';
}

-- One write, as its fault has it.
abbrev place_text : Fault → Text → ApprovalFile → Text → Desk (Unit {0})
place_text works id f t w = (ok tt, put_entry id f (file t 1) w)
place_text fails_before id f t w = (err write_failed, w)
place_text fails_after id f t w = (err write_failed, put_entry id f (file t 1) w)

abbrev write_entry : ApprovalEntry → (ℕ → Fault) → Text → ApprovalFile → Text → Desk (Unit {0})
write_entry unsafe_entry faults id f t w = (err not_a_regular_file, w)
write_entry _ faults id f t w =
    place_text (faults w.writes) id f t (record w { writes = w.writes + 1 })

-- `writeAtomic` of src/ingest/state-store.ts on a file of the directory
unfoldable pub write_approval_file : (ℕ → Fault) → Text → ApprovalFile → Text → Desk (Unit {0})
write_approval_file faults id f t w = write_entry (w.entries id f) faults id f t w
