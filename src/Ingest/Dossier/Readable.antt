-- ===== src/Ingest/Dossier/Readable.antt =====
-- The preimage of a candidate and the checks that a preimage is read with.
use web_comunidad_solar.Prelude.{
  ℕ, ◌+◌, ◌≡◌, refl, sym, ap₂, arith, ==_refl, true, false, List, [], ◌∷◌, map,
}
use web_comunidad_solar.Ingest.Failure.{ok, >>=-eq-ok}
use web_comunidad_solar.Ingest.Platform.{Platform}
use web_comunidad_solar.Ingest.Candidate.{CandidateManifest, Validation, Artifact}
use web_comunidad_solar.Ingest.Dossier.{
  sanitized_candidate_projection, SealedValidation, SealedArtifact, CandidateDossierPreimage,
  indexed, indexed_hash, indexed_hashes, seal_difference, project_artifact, seal_validations,
  seal_artifacts, candidate_dossier_preimage,
}
use web_comunidad_solar.Ingest.Dossier.Commitment.{
  counts_from, has_repeated, parse_candidate_dossier_preimage,
  assert_candidate_dossier_projection_binding,
}
use web_comunidad_solar.Ingest.Dossier.Accepted.{IsSealable, is_candidate_dossier_preimage-sealed}
use web_comunidad_solar.Ingest.Dossier.Bound.{
  sealed_validation_preimage-IsSealed, seal_validations-cons, candidate_dossier_preimage-inverse,
  candidate_dossier_preimage-bound,
}

-- The indexes of a list that is built by `indexed` count from the first one on.
counts_from-indexed {ℓ κ} :
    {A : Type ℓ} {B : Type κ} (f : A → ℕ → B) (index : B → ℕ)
    → ((x : A) (n : ℕ) → index (f x n) ≡ n)
    → (n : ℕ) (xs : List A) → counts_from n (map index (indexed f n xs)) ≡ true
counts_from-indexed f index at n [] = refl
counts_from-indexed f index at n (x ∷ xs) =
    rw (at x n, ==_refl n) (counts_from-indexed f index at (n + 1) xs)

module _ (p : Platform) where
  seal_validations-counts :
      (n : ℕ) (vs : List Validation) (ss : List SealedValidation)
      → seal_validations p n vs ≡ ok ss
      → (counts_from n (map (λ x. x.index) ss) ≡ true) × (map (λ x. x.id) ss ≡ map (λ x. x.id) vs)
  unfolding seal_validations
  seal_validations-counts n [] [] h = (refl, refl)
  seal_validations-counts n [] (s ∷ ss) h = absurd (ground (arith, h))
  seal_validations-counts n (v ∷ vs) ss h =
      let (s, rest, one, others, done) = seal_validations-cons p n v vs ss h in
      let sealed = sealed_validation_preimage-IsSealed p n v s one in
      let (counts, ids) = seal_validations-counts (n + 1) vs rest others in
      (rw (sym done, sealed.index, ==_refl n) counts, rw (sym done) (ap₂ ◌∷◌ sealed.id ids))

  seal_artifacts-counts :
      (c : CandidateManifest) (n : ℕ) (xs : List Artifact) (ss : List SealedArtifact)
      → seal_artifacts p n xs (map (project_artifact p c) xs) ≡ ok ss
      → counts_from n (map (λ x. x.index) ss) ≡ true
  unfolding seal_artifacts
  seal_artifacts-counts c n [] ss h = ground (arith, h)
  seal_artifacts-counts c n (x ∷ xs) ss h =
      let (rest, others, done) =
        >>=-eq-ok (seal_artifacts p (n + 1) xs (map (project_artifact p c) xs)) _ h in
      ground (arith, done, ==_refl n, seal_artifacts-counts c (n + 1) xs rest others)

  parse-candidate_dossier_preimage :
      (c : CandidateManifest) (pre : CandidateDossierPreimage)
      → candidate_dossier_preimage p c ≡ ok pre
      → IsSealable p c
      → has_repeated (map (λ x. x.id) c.validations) ≡ false
      → parse_candidate_dossier_preimage pre ≡ ok pre
  unfolding parse_candidate_dossier_preimage indexed_hashes
  parse-candidate_dossier_preimage c pre h w distinct =
      let schema = is_candidate_dossier_preimage-sealed p c pre h w in
      let (vs, xs, validations, artifacts, e) = candidate_dossier_preimage-inverse p c pre h in
      let (counts, ids) = seal_validations-counts 0 c.validations vs validations in
      rw
        (
          schema,
          sym e,
          counts_from-indexed (indexed_hash p) (λ x. x.index) (λ x n. refl) 0 c.routes,
          counts_from-indexed (indexed_hash p) (λ x. x.index) (λ x n. refl) 0 c.files,
          counts,
          seal_artifacts-counts c 0 c.artifacts xs artifacts,
          counts_from-indexed (seal_difference p) (λ x. x.index) (λ x n. refl) 0
              c.known_differences,
          ids,
          distinct,
        )
        refl

  -- Take a candidate that its schema accepts, with an attempt id of six digits, with commits for its
  -- baseline and its own commit, and with validations whose ids are well formed and different. Its
  -- preimage, where it can be made, is bound to the candidate's own projection, and the reader of
  -- preimages, its schema included, accepts it as it is.
  pub candidate_dossier_preimage-durable :
      (c : CandidateManifest) (pre : CandidateDossierPreimage)
      → candidate_dossier_preimage p c ≡ ok pre
      → IsSealable p c
      → has_repeated (map (λ x. x.id) c.validations) ≡ false
      → (assert_candidate_dossier_projection_binding p pre (sanitized_candidate_projection p c)
          ≡ ok tt)
        × (parse_candidate_dossier_preimage pre ≡ ok pre)
  candidate_dossier_preimage-durable c pre h w distinct = (
    candidate_dossier_preimage-bound p c pre h,
    parse-candidate_dossier_preimage c pre h w distinct,
  )
