-- ===== src/Manganafer/Csv/Reader.antt =====
-- A reader of comma-separated values with quoted cells (RFC 4180), written apart from the printer.
use web_comunidad_solar.Prelude.{Option, none, some, List, [], ◌∷◌, ◌++◌, Text, ◌==◌, if◌then◌else◌}

-- Before a cell, inside it, behind a quote inside it, and behind a carriage return.
pub data Mode : Type 0 where
  opening inside quoted returned : Mode

-- What has been read: the cell, the cells before it in its row, and the rows before.
abbrev pub read : Mode → Text → List Text → List (List Text) → Text → Option (List (List Text))
read quoted cell row rows [] = some (rows ++ (row ++ cell ∷ []) ∷ [])
read _ cell row rows [] = none
read opening cell row rows (c ∷ t) =
    let rest = read inside [] row rows t in if c == b'"' then rest else none
read inside cell row rows (c ∷ t) =
    let closing = read quoted cell row rows t in
    let more = read inside (cell ++ c ∷ []) row rows t in if c == b'"' then closing else more
read quoted cell row rows (c ∷ t) =
    let doubled = read inside (cell ++ c ∷ []) row rows t in
    let next = read opening [] (row ++ cell ∷ []) rows t in
    let ended = read returned [] [] (rows ++ (row ++ cell ∷ []) ∷ []) t in
    if c == b'"' then doubled else if c == b',' then next else if c == 13 then ended else none
read returned cell row rows (c ∷ t) =
    let rest = read opening [] [] rows t in if c == 10 then rest else none

-- The rows of a text behind its byte order mark.
abbrev pub read_csv : Text → Option (List (List Text))
read_csv [] = none
read_csv (c ∷ t) = let rest = read opening [] [] [] t in if c == 0xfeff then rest else none
