-- ===== src/Json/Tests.antt =====
-- A value that holds a line end.
use web_comunidad_solar.Prelude.{codes}
use web_comunidad_solar.Json.{Json, nat, number, string, object, field, end, canonical_json}
use web_comunidad_solar.Json.Printable.{IsPrintable, canonical_json-Printable}

abbrev two_lines : Json
two_lines =
    object
      (field (codes "n") (number (nat 2)) (field (codes "text") (string (codes "una\ndos")) end))

canonical_json-Printable_example : IsPrintable (canonical_json two_lines)
canonical_json-Printable_example = canonical_json-Printable two_lines (tt, (tt, tt))
