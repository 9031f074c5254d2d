-- ===== src/Csv/Examples.antt =====
-- The theorems on bulk files at a file with an empty line before its header.
use mathlib.Core.Bool.{false≢true}
use verifiably.Prelude.{◌≡◌, [], ◌∷◌, none, some, eq_iff}
use verifiably.Prelude.Outcome.{err}
use verifiably.Csv.{Reads, unreadable, parse_csv_rows}
use verifiably.Csv.Rows.{records, filled, table_of, Distinct, parse_csv_rows_lem}

abbrev reads : Reads
reads = some ("" ∷ []) ∷ some ("name" ∷ "age" ∷ []) ∷ some ("Ada" ∷ []) ∷ []

parse_csv_rows_lem_example :
    parse_csv_rows reads
    ≡ elim (records reads) [ none ↦ err unreadable | some recs ↦ table_of (filled recs) ]
parse_csv_rows_lem_example = parse_csv_rows_lem reads

header-Distinct : Distinct ("name" ∷ "age" ∷ [])
header-Distinct = (((λ e. false≢true ((eq_iff "name" "age").1 e)), tt), (tt, tt))
