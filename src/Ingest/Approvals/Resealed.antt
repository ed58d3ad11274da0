-- ===== src/Ingest/Approvals/Resealed.antt =====
-- The provenance that src/ingest/approvals/service.ts writes beside an approval, and its check.
use web_comunidad_solar.Prelude.{
  ◌≡◌, ap₂, sym, subst, arith, ===_refl, eq_of_===, refl, not, true, Option, none, some, Text,
}
use web_comunidad_solar.Json.{
  Json, null, boolean, number, string, array, object, Fields, canonical_json,
}
use web_comunidad_solar.Ingest.Failure.{ok, or_throw, provenance_malformed}
use web_comunidad_solar.Ingest.Effect.{lift-steps, reject_if-steps}
use web_comunidad_solar.Ingest.Approvals.Approval.{
  ApprovalRecord, approval_json, is_approval, environment_eq,
}
use web_comunidad_solar.Ingest.Approvals.Prompt.{ApprovalPrompt}
use web_comunidad_solar.Ingest.Approvals.Office.{
  ApprovalEntry, no_entry, file, unsafe_entry, provenance_file, Office, Surroundings,
}
use web_comunidad_solar.Ingest.Approvals.Provenance.{provenance_json}
use web_comunidad_solar.Ingest.Approvals.Sealed.{signed_approval_provenance}
use web_comunidad_solar.Ingest.Approvals.Service.{persist_approval}
use web_comunidad_solar.Ingest.Approvals.Issued.{persist_approval-IsKept}
use web_comunidad_solar.Ingest.Failure.{approval_invalid}
use web_comunidad_solar.Ingest.Platform.{sha256_canonical}
use web_comunidad_solar.Ingest.Schema.{is_hash}
use web_comunidad_solar.Ingest.Approvals.Approval.{environment_eq_refl, eq_of_environment_eq}
use web_comunidad_solar.Ingest.Approvals.Provenance.{
  ApprovalProvenanceRecord, VerifiedApprovalProvenance, decode_provenance,
  decode_provenance-provenance_fields,
}
use web_comunidad_solar.Ingest.Approvals.Sealed.{
  approval_provenance_signature, canonical_provenance, parsed_approval_provenance, sealed_text,
  check_provenance, verify_persisted_approval_provenance,
}

module _ (s : Surroundings) where
  -- What is asked of the runtime: `JSON.parse` reads what the program printed for the provenance, and
  -- the digests are 64 hexadecimal digits.
  pub record IsReadable (v : ApprovalProvenanceRecord) : Type 0 where
    pub read : s.platform.json_parse (canonical_json (provenance_json v)) ≡ some (provenance_json v)
    pub hash : is_hash v.approval_sha256 ≡ true
    pub signature : is_hash v.signature ≡ true

  parsed_approval_provenance-provenance_json :
      (v : ApprovalProvenanceRecord)
      → IsReadable v
      → parsed_approval_provenance s (canonical_json (provenance_json v)) ≡ ok v
  unfolding parsed_approval_provenance
  parsed_approval_provenance-provenance_json v c = ground (
    arith,
    c.read,
    ===_refl (canonical_json (provenance_json v)),
    decode_provenance-provenance_fields v c.hash c.signature,
  )

  check_provenance-signed :
      (r : ApprovalRecord) (prompt : ApprovalPrompt)
      → r.environment ≡ prompt.environment
      → check_provenance s r (signed_approval_provenance s r prompt)
        ≡ ok (record { issuer = prompt.issuer; environment = prompt.environment })
  unfolding signed_approval_provenance
  check_provenance-signed r prompt e =
      let same : environment_eq prompt.environment r.environment ≡ true =
        subst (λ x. environment_eq prompt.environment x ≡ true) (sym e)
          (environment_eq_refl prompt.environment) in
      ground (
        arith,
        same,
        ===_refl (sha256_canonical s.platform (approval_json r)),
        ===_refl (approval_provenance_signature s (signed_approval_provenance s r prompt).unsigned),
      )

  -- If an approval that its schema accepts is persisted with the prompt of its environment, its sealed
  -- provenance is accepted for it afterwards, with the issuer and the environment of that prompt.
  pub verify_persisted_approval_provenance-persist_approval :
      (r x : ApprovalRecord) (prompt : ApprovalPrompt) (w u : Office)
      → persist_approval s r prompt w ≡ (ok x, u)
      → is_approval r ≡ true
      → r.environment ≡ prompt.environment
      → IsReadable (signed_approval_provenance s r prompt)
      → verify_persisted_approval_provenance s r u
        ≡ (ok (record { issuer = prompt.issuer; environment = prompt.environment }), u)
  unfolding verify_persisted_approval_provenance
  verify_persisted_approval_provenance-persist_approval r x prompt w u h valid e c =
      let (same, kept) = persist_approval-IsKept s r x prompt w u h in
      ground (
        arith,
        valid,
        kept.provenance,
        parsed_approval_provenance-provenance_json (signed_approval_provenance s r prompt) c,
        check_provenance-signed r prompt e,
      )

  check_provenance-eq-ok :
      (r : ApprovalRecord) (v : ApprovalProvenanceRecord) (found : VerifiedApprovalProvenance)
      → check_provenance s r v ≡ ok found
      → (v.signature ≡ approval_provenance_signature s v.unsigned)
        × (v.approval_sha256 ≡ sha256_canonical s.platform (approval_json r))
        × (v.environment ≡ r.environment)
        × (found ≡ record { issuer = v.issuer; environment = v.environment })
  check_provenance-eq-ok r v found h = (
    sym (eq_of_=== _ _ (ground (arith, h))),
    eq_of_=== _ _ (ground (arith, h)),
    eq_of_environment_eq _ _ (ground (arith, h)),
    ground (arith, h),
  )

  -- A text is the canonical one of the object that it is read as, and the object is a provenance.
  pub record IsCanonical (source : Text) (v : ApprovalProvenanceRecord) : Type 0 where
    pub members : Fields
    pub read : s.platform.json_parse source ≡ some (object members)
    pub printed : source ≡ canonical_json (object members)
    pub decoded : decode_provenance members ≡ some v

  or_throw-eq-ok :
      (o : Option ApprovalProvenanceRecord) (v : ApprovalProvenanceRecord)
      → or_throw o provenance_malformed ≡ ok v
      → o ≡ some v
  or_throw-eq-ok none v h = absurd (ground (arith, h))
  or_throw-eq-ok (some x) v h = ground (arith, h)

  canonical_provenance-IsCanonical :
      (source : Text) (value : Json) (v : ApprovalProvenanceRecord)
      → s.platform.json_parse source ≡ some value
      → canonical_provenance s source value ≡ ok v
      → IsCanonical source v
  canonical_provenance-IsCanonical source null v e h = absurd (ground (arith, h))
  canonical_provenance-IsCanonical source (boolean b) v e h = absurd (ground (arith, h))
  canonical_provenance-IsCanonical source (number n) v e h = absurd (ground (arith, h))
  canonical_provenance-IsCanonical source (string t) v e h = absurd (ground (arith, h))
  canonical_provenance-IsCanonical source (array items) v e h = absurd (ground (arith, h))
  canonical_provenance-IsCanonical source (object fs) v e h = record {
    members = fs;
    read = e;
    printed = sym (eq_of_=== (canonical_json (object fs)) source (ground (arith, h)));
    decoded = or_throw-eq-ok (decode_provenance fs) v (ground (arith, h));
  }

  parsed_approval_provenance-IsCanonical :
      (source : Text) (v : ApprovalProvenanceRecord) (o : Option Json)
      → s.platform.json_parse source ≡ o
      → parsed_approval_provenance s source ≡ ok v
      → IsCanonical source v
  unfolding parsed_approval_provenance
  parsed_approval_provenance-IsCanonical source v none e h = absurd (ground (arith, e, h))
  parsed_approval_provenance-IsCanonical source v (some value) e h =
      canonical_provenance-IsCanonical source value v e (ground (arith, e, h))

  sealed_text-eq-ok :
      (x : ApprovalEntry) (source : Text) → sealed_text s x ≡ ok source → x ≡ file source 1
  sealed_text-eq-ok no_entry source h = absurd (ground (arith, h))
  sealed_text-eq-ok unsafe_entry source h = absurd (ground (arith, h))
  sealed_text-eq-ok (file t n) source h = ap₂ file (ground (arith, h)) (ground (arith, h))

  -- A provenance that is accepted for an approval lies on the disk as a file with one link, in its
  -- canonical form: it is what the program prints for the object that `JSON.parse` reads in it. It is
  -- signed with the key of the process, and names the digest and the environment of the approval.
  pub verify_persisted_approval_provenance-IsSealed :
      (r : ApprovalRecord) (w u : Office) (found : VerifiedApprovalProvenance)
      → verify_persisted_approval_provenance s r w ≡ (ok found, u)
      → (source : Text) × (v : ApprovalProvenanceRecord) × (w.entries r.change_id
            (provenance_file r.gate)
          ≡ file source 1)
        × IsCanonical source v
        × (v.signature ≡ approval_provenance_signature s v.unsigned)
        × (v.approval_sha256 ≡ sha256_canonical s.platform (approval_json r))
        × (v.environment ≡ r.environment)
        × (found ≡ record { issuer = v.issuer; environment = v.environment })
  unfolding verify_persisted_approval_provenance
  verify_persisted_approval_provenance-IsSealed r w u found h =
      let (valid, h1) = reject_if-steps (not (is_approval r)) approval_invalid _ w u found h in
      let (source, stored, h2) =
        lift-steps (sealed_text s (w.entries r.change_id (provenance_file r.gate))) _ w u found
          h1 in
      let (v, parsed, h3) = lift-steps (parsed_approval_provenance s source) _ w u found h2 in
      let (signature, hash, environment, given) =
        check_provenance-eq-ok r v found (ground (arith, h3)) in
      (
        source,
        v,
        sealed_text-eq-ok (w.entries r.change_id (provenance_file r.gate)) source stored,
        parsed_approval_provenance-IsCanonical source v _ refl parsed,
        signature,
        hash,
        environment,
        given,
      )
