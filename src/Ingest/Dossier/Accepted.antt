-- ===== src/Ingest/Dossier/Accepted.antt =====
-- The schema candidate-dossier-preimage and the preimages that src/ingest/dossier-integrity.ts makes.
use web_comunidad_solar.Prelude.{
  ℕ, ◌+◌, ◌≡◌, refl, sym, subst, arith, Bool, true, List, [], ◌∷◌, map, all, Option, none, some,
  Text,
}
use web_comunidad_solar.Ingest.Failure.{ok, >>=-eq-ok}
use web_comunidad_solar.Ingest.Platform.{Platform, sha256_canonical}
use web_comunidad_solar.Ingest.Schema.{is_hash, is_change_id}
use web_comunidad_solar.Ingest.Approvals.Baseline.{is_commit}
use web_comunidad_solar.Ingest.Plan.{is_publication}
use web_comunidad_solar.Ingest.Candidate.{
  CandidateManifest, Validation, Artifact, is_candidate, is_artifact, is_optional_hash,
}
use web_comunidad_solar.Ingest.Dossier.{
  SealedValidation, SealedArtifact, KnownDifference, CandidateDossierPreimage, value_sha256,
  indexed, indexed_hash, indexed_hashes, seal_difference, seal_environment, project_artifact,
  seal_validations, seal_artifacts, candidate_dossier_preimage,
}
use web_comunidad_solar.Ingest.Dossier.Commitment.{
  is_attempt_id, is_validation_id, is_indexed_hash, is_sealed_validation, is_sealed_artifact,
  is_sealed_difference, has_any, is_candidate_dossier_preimage,
}
use web_comunidad_solar.Ingest.Dossier.Bound.{
  sealed_validation_preimage-IsSealed, seal_validations-cons, candidate_dossier_preimage-inverse,
}

abbrev pub has_id : Validation → Bool
has_id v = is_validation_id v.id

module _ (p : Platform) where
  -- A candidate that its schema accepts and that has what the schema of preimages asks besides: an
  -- attempt of six digits, commits, and validations with ids; and digests are 64 hexadecimal digits.
  pub record IsSealable (c : CandidateManifest) : Type 0 where
    pub accepted : is_candidate c ≡ true
    pub attempt : is_attempt_id c.attempt_id ≡ true
    pub baseline : is_commit c.baseline_commit ≡ true
    pub commit : is_commit c.candidate_commit ≡ true
    pub ids : all has_id c.validations ≡ true
    pub digests : (t : Text) → is_hash (p.sha256 t) ≡ true

  module _ (digests : (t : Text) → is_hash (p.sha256 t) ≡ true) where
    value_sha256-hash : (t : Text) → is_hash (value_sha256 p t) ≡ true
    unfolding sha256_canonical
    value_sha256-hash t = digests _

    all-indexed_hashes :
        (n : ℕ) (ts : List Text) → all is_indexed_hash (indexed (indexed_hash p) n ts) ≡ true
    all-indexed_hashes n [] = refl
    all-indexed_hashes n (t ∷ ts) = rw (value_sha256-hash t) (all-indexed_hashes (n + 1) ts)

    all-seal_difference :
        (n : ℕ) (ds : List KnownDifference)
        → all is_sealed_difference (indexed (seal_difference p) n ds) ≡ true
    all-seal_difference n [] = refl
    all-seal_difference n (d ∷ ds) =
        rw (value_sha256-hash d.description) (all-seal_difference (n + 1) ds)

    seal_environment-hash : (o : Option Text) → is_optional_hash (seal_environment p o) ≡ true
    seal_environment-hash none = refl
    seal_environment-hash (some t) = value_sha256-hash t

    all-seal_validations :
        (n : ℕ) (vs : List Validation) (ss : List SealedValidation)
        → seal_validations p n vs ≡ ok ss
        → all has_id vs ≡ true
        → all is_sealed_validation ss ≡ true
    unfolding seal_validations
    all-seal_validations n [] [] h k = refl
    all-seal_validations n [] (s ∷ ss) h k = absurd (ground (arith, h))
    all-seal_validations n (v ∷ vs) ss h k =
        let (s, rest, one, others, done) = seal_validations-cons p n v vs ss h in
        let sealed = sealed_validation_preimage-IsSealed p n v s one in
        let id : is_validation_id s.id ≡ true =
          subst (λ t. is_validation_id t ≡ true) (sym sealed.id) (ground (arith, k)) in
        let path : is_hash s.evidence_path_sha256 ≡ true =
          subst (λ t. is_hash t ≡ true) (sym sealed.path) (value_sha256-hash v.evidence) in
        rw (sym done, id, path, sealed.hash)
          (all-seal_validations (n + 1) vs rest others (ground (arith, k)))

    has_any-seal_validations :
        (v : Validation) (vs : List Validation) (ss : List SealedValidation)
        → seal_validations p 0 (v ∷ vs) ≡ ok ss
        → has_any ss ≡ true
    has_any-seal_validations v vs ss h =
        let (s, rest, one, others, done) = seal_validations-cons p 0 v vs ss h in rw (sym done) refl

    all-seal_artifacts :
        (c : CandidateManifest) (n : ℕ) (xs : List Artifact) (ss : List SealedArtifact)
        → seal_artifacts p n xs (map (project_artifact p c) xs) ≡ ok ss
        → all is_artifact xs ≡ true
        → all is_sealed_artifact ss ≡ true
    unfolding seal_artifacts
    all-seal_artifacts c n [] ss h k = ground (arith, h)
    all-seal_artifacts c n (x ∷ xs) ss h k =
        let (rest, others, done) =
          >>=-eq-ok (seal_artifacts p (n + 1) xs (map (project_artifact p c) xs)) _ h in
        ground (
          arith,
          done,
          k,
          value_sha256-hash x.path,
          value_sha256-hash (project_artifact p c x).path,
          all-seal_artifacts c (n + 1) xs rest others (ground (arith, k)),
        )

  abbrev IsAcceptedPart : CandidateManifest → Type 0
  IsAcceptedPart c =
      (is_change_id c.change_id ≡ true)
      × (is_hash c.request_sha256 ≡ true)
      × (is_hash c.plan_sha256 ≡ true)
      × (is_hash c.artifact_sha256 ≡ true)
      × (is_hash c.build_profile.config_sha256 ≡ true)
      × (all is_artifact c.artifacts ≡ true)

  accepted_part : (c : CandidateManifest) → is_candidate c ≡ true → IsAcceptedPart c
  unfolding is_candidate is_publication
  accepted_part c h = (
    ground (arith, h),
    ground (arith, h),
    ground (arith, h),
    ground (arith, h),
    ground (arith, h),
    ground (arith, h),
  )

  validations_there :
      (c : CandidateManifest) (vs : List Validation) (ss : List SealedValidation)
      → ((t : Text) → is_hash (p.sha256 t) ≡ true)
      → is_candidate c ≡ true
      → c.validations ≡ vs
      → seal_validations p 0 vs ≡ ok ss
      → has_any ss ≡ true
  unfolding is_candidate
  validations_there c [] ss digests h e sealed = absurd (ground (arith, h, e))
  validations_there c (v ∷ vs) ss digests h e sealed =
      has_any-seal_validations digests v vs ss sealed

  pub is_candidate_dossier_preimage-sealed :
      (c : CandidateManifest) (pre : CandidateDossierPreimage)
      → candidate_dossier_preimage p c ≡ ok pre
      → IsSealable c
      → is_candidate_dossier_preimage pre ≡ true
  unfolding is_candidate_dossier_preimage indexed_hashes
  is_candidate_dossier_preimage-sealed c pre h w =
      let (vs, xs, validations, artifacts, e) = candidate_dossier_preimage-inverse p c pre h in
      let (id, requested, planned, artifact, config, hashes) = accepted_part c w.accepted in
      rw
        (
          sym e,
          id,
          w.attempt,
          requested,
          planned,
          w.baseline,
          w.commit,
          artifact,
          config,
          seal_environment-hash w.digests c.build_profile.environment,
          all-indexed_hashes w.digests 0 c.routes,
          all-indexed_hashes w.digests 0 c.files,
          validations_there c c.validations vs w.digests w.accepted refl validations,
          all-seal_validations w.digests 0 c.validations vs validations w.ids,
          all-seal_artifacts w.digests c 0 c.artifacts xs artifacts hashes,
          value_sha256-hash w.digests c.preview_command,
          value_sha256-hash w.digests c.preview_url,
          all-seal_difference w.digests 0 c.known_differences,
        )
        refl
