-- ===== src/Ingest/Dossier/Files.antt =====
-- `sanitizedDossierSha256` of src/ingest/dossier-integrity.ts: the seal of the files of a dossier.
use web_comunidad_solar.Prelude.{
  Bool, false, List, [], ◌∷◌, Text, codes, ◌===◌, text_lt, if◌then◌else◌, ◌||◌,
}
use web_comunidad_solar.Json.{Json, string}
use web_comunidad_solar.Json.Encode.{array_of, object_of}
use web_comunidad_solar.Ingest.Failure.{Result, ok, err, path_repeated}
use web_comunidad_solar.Ingest.Platform.{Platform, sha256_canonical}

pub record DossierCommitmentFile : Type 0 where
  pub path : Text
  pub contents : Text

abbrev pub insert_file :
    DossierCommitmentFile → List DossierCommitmentFile → List DossierCommitmentFile
insert_file x [] = x ∷ []
insert_file x (y ∷ ys) =
    let rest = insert_file x ys in if text_lt y.path x.path then y ∷ rest else x ∷ y ∷ ys

-- `files.sort((left, right) => …)`, which is stable
abbrev pub sort_files : List DossierCommitmentFile → List DossierCommitmentFile
sort_files [] = []
sort_files (x ∷ xs) = insert_file x (sort_files xs)

-- Two neighbours with one path.
abbrev pub has_equal_neighbours : List DossierCommitmentFile → Bool
has_equal_neighbours [] = false
has_equal_neighbours (x ∷ []) = false
has_equal_neighbours (x ∷ y ∷ ys) = x.path === y.path || has_equal_neighbours (y ∷ ys)

abbrev file_json : DossierCommitmentFile → Json
file_json f = object_of ((codes "path", string f.path) ∷ (codes "contents", string f.contents) ∷ [])

unfoldable pub sanitized_dossier_sha256 : Platform → List DossierCommitmentFile → Result Text
sanitized_dossier_sha256 p files =
    let normalized = sort_files files in
    if has_equal_neighbours normalized
    then err path_repeated
    else ok (sha256_canonical p (array_of file_json normalized))
