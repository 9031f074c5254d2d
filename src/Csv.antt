-- ===== src/Csv.antt =====
-- internal/handlers/csv.go: the rows of a bulk file. What encoding/csv reads is an argument: the records one
-- after the other, up to the end of the file, or up to one that it cannot read.
pub mod Rows
mod Examples
use text.Mathlib.Text.{◌==◌}
use verifiably.Prelude.{
  Bool, true, false, ◌&&◌, List, [], ◌∷◌, Option, none, some, String, if◌then◌else◌,
}
use verifiably.Prelude.Outcome.{Outcome, ok, err}
use verifiably.Prelude.Dict.{Dict, put}

pub data CsvError : Type 0 where
  unreadable empty_csv : CsvError

-- One call of reader.Read before the end of the file.
abbrev pub Reads : Type 0
Reads = List (Option (List String))

unfoldable pub all_empty : List String → Bool
all_empty [] = true
all_empty (v ∷ vs) = v == "" && all_empty vs

-- The first loop: the header and the reads after it. An empty header is no header.
unfoldable pub find_header : Reads → Outcome CsvError (List String × Reads)
unfolding all_empty
find_header [] = err empty_csv
find_header (none ∷ reads) = err unreadable
find_header (some rec ∷ reads) =
    let rest = find_header reads in if all_empty rec then rest else ok (rec, reads)

-- The columns of a record by name, onto those set before.
unfoldable pub row_from : Dict String → List String → List String → Dict String
row_from row [] rec = row
row_from row (name ∷ names) [] = row
row_from row (name ∷ names) (v ∷ vs) = row_from (put row name v) names vs

-- The second loop.
unfoldable pub rows_from : List String → Reads → Outcome CsvError (List (Dict String))
unfolding all_empty row_from
rows_from header [] = ok []
rows_from header (none ∷ reads) = err unreadable
rows_from header (some rec ∷ reads) =
    let rest = rows_from header reads in
    if all_empty rec
    then rest
    else elim rest [ err e ↦ err e | ok rows ↦ ok (row_from [] header rec ∷ rows) ]

unfoldable pub parse_csv_rows : Reads → Outcome CsvError (List (Dict String) × List String)
unfolding find_header rows_from
parse_csv_rows reads = elim (find_header reads) [
  | err e ↦ err e
  | ok (header, rest) ↦ elim (rows_from header rest) [ err e ↦ err e | ok rows ↦ ok (rows, header) ]
]
