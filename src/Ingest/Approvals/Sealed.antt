-- ===== src/Ingest/Approvals/Sealed.antt =====
-- src/ingest/approvals/service.ts: signing the provenance of an approval, and reading it again.
use web_comunidad_solar.Prelude.{not, none, some, Text, ◌===◌, ◌==◌, ◌||◌, if◌then◌else◌}
use web_comunidad_solar.Json.{Json, object, canonical_json}
use web_comunidad_solar.Ingest.Failure.{
  Result, ok, err, or_throw, provenance_not_json, provenance_not_canonical, provenance_malformed,
  provenance_unsafe, provenance_missing, provenance_mismatch, approval_invalid,
}
use web_comunidad_solar.Ingest.Effect.{◌>>=◌, ◌>>◌, lift, reject_if}
use web_comunidad_solar.Ingest.Platform.{sha256_canonical}
use web_comunidad_solar.Ingest.Approvals.Approval.{
  ApprovalRecord, environment_eq, approval_json, is_approval,
}
use web_comunidad_solar.Ingest.Approvals.Prompt.{ApprovalPrompt}
use web_comunidad_solar.Ingest.Approvals.Office.{
  ApprovalEntry, no_entry, file, unsafe_entry, provenance_file, Surroundings, Desk,
}
use web_comunidad_solar.Ingest.Approvals.Provenance.{
  UnsignedProvenance, ApprovalProvenanceRecord, VerifiedApprovalProvenance, provenance_payload,
  decode_provenance,
}

module _ (s : Surroundings) where
  unfoldable pub approval_provenance_signature : UnsignedProvenance → Text
  approval_provenance_signature v = s.hmac (canonical_json (provenance_payload v))

  unfoldable pub signed_approval_provenance :
      ApprovalRecord → ApprovalPrompt → ApprovalProvenanceRecord
  signed_approval_provenance approval prompt =
      let unsigned : UnsignedProvenance = record {
        issuer = prompt.issuer;
        environment = prompt.environment;
        approval_sha256 = sha256_canonical s.platform (approval_json approval);
      } in
      record { unsigned = unsigned; signature = approval_provenance_signature unsigned }

  abbrev pub canonical_provenance : Text → Json → Result ApprovalProvenanceRecord
  canonical_provenance source (object fs) =
      if canonical_json (object fs) === source
      then or_throw (decode_provenance fs) provenance_malformed
      else err provenance_not_canonical
  canonical_provenance source _ = err provenance_not_canonical

  unfoldable pub parsed_approval_provenance : Text → Result ApprovalProvenanceRecord
  parsed_approval_provenance source = elim (s.platform.json_parse source) [
    | none ↦ err provenance_not_json
    | some value ↦ canonical_provenance source value
  ]

  abbrev pub sealed_text : ApprovalEntry → Result Text
  sealed_text no_entry = err provenance_missing
  sealed_text unsafe_entry = err provenance_unsafe
  sealed_text (file t links) = if links == 1 then ok t else err provenance_unsafe

  abbrev pub check_provenance :
      ApprovalRecord → ApprovalProvenanceRecord → Result VerifiedApprovalProvenance
  check_provenance approval provenance =
      if not (approval_provenance_signature provenance.unsigned === provenance.signature)
        || not (provenance.approval_sha256 === sha256_canonical s.platform (approval_json approval))
        || not (environment_eq provenance.environment approval.environment)
      then err provenance_mismatch
      else ok (record { issuer = provenance.issuer; environment = provenance.environment })

  unfoldable pub verify_persisted_approval_provenance :
      ApprovalRecord → Desk VerifiedApprovalProvenance
  verify_persisted_approval_provenance approval w =
      (do
        reject_if (not (is_approval approval)) approval_invalid
        source ← lift (sealed_text (w.entries approval.change_id (provenance_file approval.gate)))
        provenance ← lift (parsed_approval_provenance source)
        lift (check_provenance approval provenance))
        w
