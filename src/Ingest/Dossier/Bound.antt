-- ===== src/Ingest/Dossier/Bound.antt =====
-- The preimage of a candidate and the projection of that candidate.
use web_comunidad_solar.Prelude.{
  true, subst, ℕ, ◌+◌, ◌≡◌, refl, sym, ap₂, arith, ===_refl, Option, none, some, List, [], ◌∷◌, map,
  Text,
}
use web_comunidad_solar.Json.Encode.{items}
use web_comunidad_solar.Json.{cons}
use web_comunidad_solar.Ingest.Failure.{ok, >>=-eq-ok, ok-injective}
use web_comunidad_solar.Ingest.Platform.{Platform}
use web_comunidad_solar.Ingest.Candidate.{
  CandidateManifest, Validation, Artifact, KnownDifference, ValidationStatus, passed, failed,
}
use web_comunidad_solar.Ingest.Schema.{is_hash}
use web_comunidad_solar.Ingest.Dossier.{
  value_sha256, SealedValidation, SealedArtifact, CandidateDossierPreimage, indexed,
  project_artifact, project_validation, project_difference, seal_difference,
  sanitized_candidate_projection, seal_evidence, sealed_validation_preimage, seal_validations,
  seal_artifacts, preimage_of, candidate_dossier_preimage,
}
use web_comunidad_solar.Ingest.Dossier.Commitment.{
  identity, project_bound_validation, project_bound_artifact, project_bound_difference,
  projection_binding, preimage_bound_validation, preimage_bound_artifact, preimage_bound_difference,
  preimage_projection_binding, assert_candidate_dossier_projection_binding,
}

module _ (p : Platform) where
  -- What a validation is sealed as at an index.
  pub record IsSealed (n : ℕ) (v : Validation) (s : SealedValidation) : Type 0 where
    pub index : s.index ≡ n
    pub id : s.id ≡ v.id
    pub path : s.evidence_path_sha256 ≡ value_sha256 p v.evidence
    pub hash : is_hash s.evidence_sha256 ≡ true
    pub bound : project_bound_validation p (project_validation v) n ≡ preimage_bound_validation s

  kept_hash :
      (n : ℕ) (v : Validation) (s : SealedValidation) (hash : Text)
      → v.status ≡ passed
      → seal_evidence p v n (some hash) ≡ ok s
      → is_hash s.evidence_sha256 ≡ true
  kept_hash n v s hash e sealed =
      let same : hash ≡ s.evidence_sha256 = ground (arith, sealed) in
      subst (λ t. is_hash t ≡ true) same (ground (arith, e, sealed))

  seal_evidence-IsSealed :
      (n : ℕ) (v : Validation) (s : SealedValidation) (hash : Text)
      → v.status ≡ passed
      → v.evidence_sha256 ≡ some hash
      → seal_evidence p v n (some hash) ≡ ok s
      → IsSealed n v s
  seal_evidence-IsSealed n v s hash e h sealed = record {
    index = ground (arith, sealed);
    id = ground (arith, sealed);
    path = ground (arith, sealed);
    hash = kept_hash n v s hash e sealed;
    bound = rw (e, h) (ground (arith, sealed));
  }

  pub sealed_validation_preimage-IsSealed :
      (n : ℕ) (v : Validation) (s : SealedValidation)
      → sealed_validation_preimage p v n ≡ ok s
      → IsSealed n v s
  unfolding sealed_validation_preimage
  sealed_validation_preimage-IsSealed n v s h = from v.status refl v.evidence_sha256 refl
    where
      from :
          (st : ValidationStatus)
          → v.status ≡ st
          → (o : Option Text) → v.evidence_sha256 ≡ o
          → IsSealed n v s
      from passed e (some hash) f = seal_evidence-IsSealed n v s hash e f (ground (arith, e, f, h))
      from failed e (some hash) f = absurd (ground (arith, e, f, h))
      from st e none f = absurd (ground (arith, f, h))

  pub seal_validations-cons :
      (n : ℕ) (v : Validation) (vs : List Validation) (ss : List SealedValidation)
      → seal_validations p n (v ∷ vs) ≡ ok ss
      → (s : SealedValidation) × (rest : List SealedValidation) × (sealed_validation_preimage p v n
          ≡ ok s)
        × (seal_validations p (n + 1) vs ≡ ok rest)
        × (s ∷ rest ≡ ss)
  unfolding seal_validations
  seal_validations-cons n v vs ss h =
      let (s, one, more) = >>=-eq-ok (sealed_validation_preimage p v n) _ h in
      let (rest, others, done) = >>=-eq-ok (seal_validations p (n + 1) vs) _ more in
      (s, rest, one, others, ground (arith, done))

  seal_validations-bound :
      (n : ℕ) (vs : List Validation) (ss : List SealedValidation)
      → seal_validations p n vs ≡ ok ss
      → items identity (indexed (project_bound_validation p) n (map project_validation vs))
        ≡ items preimage_bound_validation ss
  unfolding seal_validations
  seal_validations-bound n [] [] h = refl
  seal_validations-bound n [] (s ∷ ss) h = absurd (ground (arith, h))
  seal_validations-bound n (v ∷ vs) ss h =
      let (s, rest, one, others, done) = seal_validations-cons n v vs ss h in
      let sealed = sealed_validation_preimage-IsSealed n v s one in
      rw (sym done) (ap₂ cons sealed.bound (seal_validations-bound (n + 1) vs rest others))

  seal_artifacts-bound :
      (c : CandidateManifest) (n : ℕ) (xs : List Artifact) (ss : List SealedArtifact)
      → seal_artifacts p n xs (map (project_artifact p c) xs) ≡ ok ss
      → items identity (indexed (project_bound_artifact p) n (map (project_artifact p c) xs))
        ≡ items preimage_bound_artifact ss
  unfolding seal_artifacts
  seal_artifacts-bound c n [] ss h = ground (arith, h)
  seal_artifacts-bound c n (x ∷ xs) ss h =
      let (rest, others, done) =
        >>=-eq-ok (seal_artifacts p (n + 1) xs (map (project_artifact p c) xs)) _ h in
      ground (arith, done, seal_artifacts-bound c (n + 1) xs rest others)

  differences-bound :
      (n : ℕ) (ds : List KnownDifference)
      → items identity (indexed project_bound_difference n (map project_difference ds))
        ≡ items preimage_bound_difference (indexed (seal_difference p) n ds)
  differences-bound n [] = refl
  differences-bound n (d ∷ ds) = rw (differences-bound (n + 1) ds) refl

  pub candidate_dossier_preimage-inverse :
      (c : CandidateManifest) (pre : CandidateDossierPreimage)
      → candidate_dossier_preimage p c ≡ ok pre
      → (vs : List SealedValidation) × (xs : List SealedArtifact) × (seal_validations p 0
            c.validations
          ≡ ok vs)
        × (seal_artifacts p 0 c.artifacts (map (project_artifact p c) c.artifacts) ≡ ok xs)
        × (preimage_of p c vs xs ≡ pre)
  unfolding candidate_dossier_preimage sanitized_candidate_projection
  candidate_dossier_preimage-inverse c pre h =
      let (vs, validations, more) = >>=-eq-ok (seal_validations p 0 c.validations) _ h in
      let (xs, artifacts, done) =
        >>=-eq-ok (seal_artifacts p 0 c.artifacts (map (project_artifact p c) c.artifacts)) _
          more in
      (vs, xs, validations, artifacts, ok-injective done)

  projection_binding-preimage :
      (c : CandidateManifest) (vs : List SealedValidation) (xs : List SealedArtifact)
      → seal_validations p 0 c.validations ≡ ok vs
      → seal_artifacts p 0 c.artifacts (map (project_artifact p c) c.artifacts) ≡ ok xs
      → projection_binding p (sanitized_candidate_projection p c)
        ≡ preimage_projection_binding (preimage_of p c vs xs)
  unfolding sanitized_candidate_projection projection_binding preimage_projection_binding
  projection_binding-preimage c vs xs validations artifacts =
      rw
        (
          seal_validations-bound 0 c.validations vs validations,
          seal_artifacts-bound c 0 c.artifacts xs artifacts,
          differences-bound 0 c.known_differences,
        )
        refl

  -- A candidate whose preimage can be made has one that is bound to the candidate's own projection.
  pub candidate_dossier_preimage-bound :
      (c : CandidateManifest) (pre : CandidateDossierPreimage)
      → candidate_dossier_preimage p c ≡ ok pre
      → assert_candidate_dossier_projection_binding p pre (sanitized_candidate_projection p c)
        ≡ ok tt
  unfolding assert_candidate_dossier_projection_binding
  candidate_dossier_preimage-bound c pre h =
      let (vs, xs, validations, artifacts, e) = candidate_dossier_preimage-inverse c pre h in
      rw (sym e, projection_binding-preimage c vs xs validations artifacts, ===_refl _) refl
