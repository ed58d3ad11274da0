-- ===== src/Ingest/Dossier/Subjects.antt =====
-- The subject of a candidate for the second gate.
use web_comunidad_solar.Prelude.{
  ℕ, ◌+◌, ◌≡◌, refl, arith, true, Bool-cases, inl, inr, Option, none, some, List, [], ◌∷◌, map,
  Text, all,
}
use web_comunidad_solar.Ingest.Failure.{ok}
use web_comunidad_solar.Ingest.Platform.{Platform, sha256_canonical}
use web_comunidad_solar.Ingest.Candidate.{CandidateManifest, Validation, Artifact}
use web_comunidad_solar.Ingest.Dossier.{
  SealedValidation, SealedArtifact, CandidateDossierPreimage, sealed_validation, sealed_artifact,
  project_artifact, sanitized_candidate_projection, seal_evidence, sealed_validation_preimage,
  seal_validations, seal_artifacts, preimage_of, candidate_dossier_preimage,
}
use web_comunidad_solar.Ingest.Dossier.Commitment.{
  is_recordable, all_of_some, has_recordable_validation_evidence, candidate_dossier_commitment,
  candidate_approval_subject, approval_subject_sha256, legacy_candidate_approval_subject,
}
use web_comunidad_solar.Ingest.Dossier.Printed.{projection_json, preimage_json}

module _ (p : Platform) where
  seal_evidence-total :
      (v : Validation) (n : ℕ) (o : Option Text)
      → v.evidence_sha256 ≡ o
      → is_recordable v ≡ true
      → (s : SealedValidation) × (seal_evidence p v n o ≡ ok s)
  seal_evidence-total v n none e h = absurd (ground (arith, e, h))
  seal_evidence-total v n (some hash) e h = (sealed_validation p v n hash, ground (arith, e, h))

  seal_validations-total :
      (n : ℕ) (vs : List Validation)
      → all is_recordable vs ≡ true
      → (ss : List SealedValidation) × (seal_validations p n vs ≡ ok ss)
  unfolding seal_validations sealed_validation_preimage
  seal_validations-total n [] h = ([], refl)
  seal_validations-total n (v ∷ vs) h =
      let (s, one) = seal_evidence-total v n v.evidence_sha256 refl (ground (arith, h)) in
      let (rest, others) = seal_validations-total (n + 1) vs (ground (arith, h)) in
      (s ∷ rest, rw (one, others) refl)

  seal_artifacts-total :
      (c : CandidateManifest) (n : ℕ) (xs : List Artifact)
      → (ss : List SealedArtifact) × (seal_artifacts p n xs (map (project_artifact p c) xs) ≡ ok ss)
  unfolding seal_artifacts
  seal_artifacts-total c n [] = ([], refl)
  seal_artifacts-total c n (x ∷ xs) =
      let (rest, others) = seal_artifacts-total c (n + 1) xs in
      (sealed_artifact p x n (project_artifact p c x) ∷ rest, rw others refl)

  -- A candidate whose validations all passed with sealed evidence has a preimage.
  pub candidate_dossier_preimage-total :
      (c : CandidateManifest)
      → has_recordable_validation_evidence c ≡ true
      → (pre : CandidateDossierPreimage) × (candidate_dossier_preimage p c ≡ ok pre)
  unfolding candidate_dossier_preimage sanitized_candidate_projection
      has_recordable_validation_evidence
  candidate_dossier_preimage-total c h =
      let (vs, validations) = seal_validations-total 0 c.validations (every c.validations h) in
      let (xs, artifacts) = seal_artifacts-total c 0 c.artifacts in
      (preimage_of p c vs xs, rw (validations, artifacts) refl)
    where
      every : (vs : List Validation) → all_of_some vs ≡ true → all is_recordable vs ≡ true
      every [] h = refl
      every (v ∷ vs) h = h

  -- Every candidate has a subject: taking it never throws.
  pub candidate_approval_subject-total :
      (c : CandidateManifest) → (t : Text) × (candidate_approval_subject p c ≡ ok t)
  unfolding candidate_approval_subject candidate_dossier_commitment
  candidate_approval_subject-total c = elim (Bool-cases (has_recordable_validation_evidence c)) [
    | inl recordable ↦
        let (pre, made) = candidate_dossier_preimage-total c recordable in
        (
          approval_subject_sha256 p (sha256_canonical p (preimage_json pre))
              (projection_json (sanitized_candidate_projection p c)),
          rw (recordable, made) refl,
        )
    | inr legacy ↦ (legacy_candidate_approval_subject p c, rw legacy refl)
  ]
