-- ===== src/Manganafer/Csv/RoundTrip.antt =====
-- The export of the interests and its reader.
use web_comunidad_solar.Prelude.{
  ◌≡◌, refl, sym, ap, ◌∙◌, inl, inr, arith, Option, none, some, List, [], ◌∷◌, ◌++◌, map, Text,
  codes, ◌==◌, append-nil, append_assoc, join_onto, Bool-cases, ==_iff,
}
use web_comunidad_solar.Auth.{
  Runtime, Identity, AccessEnv, PrivateAccessDecision, allowed, manganafer, resolve_private_access,
}
use web_comunidad_solar.Auth.Access.{IsListed, resolve_private_access-IsListed}
use web_comunidad_solar.Manganafer.Csv.{
  InterestExportRow, csv_labels, csv_values, double_quotes, csv_cell, csv_line, row_line,
  to_interest_csv, csv_response, export_for, handle_manganafer_interest_export,
}
use web_comunidad_solar.Manganafer.Csv.Reader.{opening, inside, quoted, read, read_csv}

module _ (row : List Text) (rows : List (List Text)) where
  read-double_quotes :
      (v cell t : Text)
      → read inside cell row rows (double_quotes v ++ b'"' ∷ t) ≡ read quoted (cell ++ v) row rows t
  unfolding double_quotes
  read-double_quotes [] cell t = rw append-nil
  read-double_quotes (c ∷ v) cell t = elim (Bool-cases (c == b'"')) [
    | inl e ↦
        (let same : c ≡ b'"' = (==_iff c b'"').0 e in
          ground
            (arith, e, same, read-double_quotes v (cell ++ c ∷ []) t, append_assoc cell (c ∷ []) v))
    | inr e ↦
        ground (arith, e, read-double_quotes v (cell ++ c ∷ []) t, append_assoc cell (c ∷ []) v)
  ]

  read-csv_cell :
      (v cell t : Text) → read opening cell row rows (csv_cell v ++ t) ≡ read quoted v row rows t
  unfolding csv_cell
  read-csv_cell v cell t =
      ap (read inside [] row rows) (append_assoc (double_quotes v) (b'"' ∷ []) t)
      ∙ read-double_quotes v [] t

-- What is read behind the last cell of a line is `k` of the whole row.
read-line :
    (rows : List (List Text)) (t : Text) (k : List Text → Option (List (List Text)))
    → ((cell : Text) (row : List Text) → read quoted cell row rows t ≡ k (row ++ cell ∷ []))
    → (vs : List Text) (cell : Text) (row : List Text)
    → read quoted cell row rows (join_onto (codes ",") (map csv_cell vs) ++ t)
      ≡ k (row ++ cell ∷ vs)
read-line rows t k ends [] cell row = ends cell row
read-line rows t k ends (w ∷ ws) cell row =
    ap (read opening [] (row ++ cell ∷ []) rows) (append_assoc (csv_cell w) _ t)
    ∙ read-csv_cell (row ++ cell ∷ []) rows w [] (join_onto (codes ",") (map csv_cell ws) ++ t)
    ∙ read-line rows t k ends ws w (row ++ cell ∷ [])
    ∙ ap k (append_assoc row (cell ∷ []) (w ∷ ws))

read-csv_line :
    (rows : List (List Text)) (t : Text) (k : List Text → Option (List (List Text)))
    → ((cell : Text) (row : List Text) → read quoted cell row rows t ≡ k (row ++ cell ∷ []))
    → (v : Text) (vs : List Text) → read opening [] [] rows (csv_line (v ∷ vs) ++ t) ≡ k (v ∷ vs)
unfolding csv_line
read-csv_line rows t k ends v vs =
    ap (read opening [] [] rows) (append_assoc (csv_cell v) _ t)
    ∙ read-csv_cell [] rows v [] (join_onto (codes ",") (map csv_cell vs) ++ t)
    ∙ read-line rows t k ends vs v []

read-rows :
    (rs : List InterestExportRow) (v : Text) (vs : List Text) (rows : List (List Text))
    → read opening [] [] rows (csv_line (v ∷ vs) ++ join_onto (codes "\r\n") (map row_line rs))
      ≡ some (rows ++ (v ∷ vs) ∷ map csv_values rs)
read-rows [] v vs rows =
    read-csv_line rows [] (λ line. some (rows ++ line ∷ [])) (λ cell row. refl) v vs
read-rows (r ∷ rs) v vs rows =
    let more = row_line r ++ join_onto (codes "\r\n") (map row_line rs) in
    read-csv_line rows (codes "\r\n" ++ more) (λ line. read opening [] [] (rows ++ line ∷ []) more)
      (λ cell row. refl) v vs
    ∙ read-rows rs r.created_at _ (rows ++ (v ∷ vs) ∷ [])
    ∙ ap some (append_assoc rows ((v ∷ vs) ∷ []) (map csv_values (r ∷ rs)))

-- A reader of quoted comma-separated values gets back the labels and every value of every row,
-- whatever quotes, commas and line ends the values hold.
pub read_csv-to_interest_csv :
    (rs : List InterestExportRow)
    → read_csv (to_interest_csv rs) ≡ some (csv_labels ∷ map csv_values rs)
unfolding to_interest_csv
read_csv-to_interest_csv rs = read-rows rs (codes "Fecha") _ []

export_for-allowed :
    (d : PrivateAccessDecision) (rs : List InterestExportRow) (now name body : Text)
    → export_for d rs now ≡ csv_response name body
    → (d ≡ allowed) × (to_interest_csv rs ≡ body)
export_for-allowed d rs now name body h = ground arith

-- A file is exported only to a signed-in person whom the area's list names, and it reads back as the
-- labels and the rows that were collected.
pub handle_manganafer_interest_export-IsListed :
    (rt : Runtime) (identity : Option Identity) (env : AccessEnv) (rs : List InterestExportRow)
    (now name body : Text)
    → handle_manganafer_interest_export rt identity env rs now ≡ csv_response name body
    → ((who : Identity) × (identity ≡ some who) × IsListed rt manganafer env who)
      × (read_csv body ≡ some (csv_labels ∷ map csv_values rs))
unfolding handle_manganafer_interest_export
handle_manganafer_interest_export-IsListed rt none env rs now name body h = cc
handle_manganafer_interest_export-IsListed rt (some who) env rs now name body h =
    let (open_to, same) =
      export_for-allowed (resolve_private_access rt manganafer (some who) env) rs now name body h in
    (
      (resolve_private_access-IsListed rt manganafer (some who) env).0 open_to,
      ap read_csv (sym same) ∙ read_csv-to_interest_csv rs,
    )
