-- ===== src/Csv/Rows.antt =====
-- The rows that internal/handlers/csv.go gives, against the records of the file.
use mathlib.Core.Option.{some-injective}
use verifiably.Prelude.{
  ℕ, zero, suc, ◌≡◌, ◌≢◌, inl, inr, refl, sym, subst, ◌∙◌, not, List, [], ◌∷◌, Option, none, some,
  String, map, keep_if, get_elem?, arith, eq_iff, Bool-cases, Option-cases,
}
use verifiably.Prelude.Outcome.{Outcome, ok, err}
use verifiably.Prelude.Dict.{Dict, find, put, find-put}
use verifiably.Csv.{
  CsvError, unreadable, empty_csv, Reads, all_empty, find_header, row_from, rows_from,
  parse_csv_rows,
}

-- The records, where every read gives one.
unfoldable pub records : Reads → Option (List (List String))
records [] = some []
records (none ∷ reads) = none
records (some rec ∷ reads) = elim (records reads) [ none ↦ none | some recs ↦ some (rec ∷ recs) ]

-- The records with a value.
abbrev pub filled : List (List String) → List (List String)
filled = keep_if (λ rec. not (all_empty rec))

-- The first filled record is the header, the others are the rows.
abbrev pub table_of : List (List String) → Outcome CsvError (List (Dict String) × List String)
table_of [] = err empty_csv
table_of (header ∷ recs) = ok (map (row_from [] header) recs, header)

rows_from_unreadable :
    (header : List String) (reads : Reads)
    → records reads ≡ none
    → rows_from header reads ≡ err unreadable
unfolding rows_from records
rows_from_unreadable header [] h = absurd (ground (arith, h))
rows_from_unreadable header (none ∷ reads) h = refl
rows_from_unreadable header (some rec ∷ reads) h =
    let rest = rows_from_unreadable header reads (ground (arith, h)) in
    elim (Bool-cases (all_empty rec)) [
      | inl skip ↦ rw (skip, rows_from) rest
      | inr keep ↦ rw (keep, rows_from, rest) refl
    ]

rows_from-filled :
    (header : List String) (reads : Reads) (recs : List (List String))
    → records reads ≡ some recs
    → rows_from header reads ≡ ok (map (row_from [] header) (filled recs))
unfolding rows_from records
rows_from-filled header [] recs h = rw (← some-injective [] recs h) refl
rows_from-filled header (none ∷ reads) recs h = absurd (ground (arith, h))
rows_from-filled header (some rec ∷ reads) recs h = elim (Option-cases (records reads)) [
  | inl bad ↦ absurd (ground (arith, bad, h))
  | inr (recs', good) ↦
      let rest = rows_from-filled header reads recs' good in
      let is_recs : (rec ∷ recs' ≡ recs) = ground (arith, good, h) in
      elim (Bool-cases (all_empty rec)) [
        | inl skip ↦ rw (← is_recs, skip, rows_from) rest
        | inr keep ↦ rw (← is_recs, keep, rows_from, rest) refl
      ]
]

parse_csv_unreadable :
    (reads : Reads) → records reads ≡ none → parse_csv_rows reads ≡ err unreadable
unfolding parse_csv_rows find_header records
parse_csv_unreadable [] h = absurd (ground (arith, h))
parse_csv_unreadable (none ∷ reads) h = refl
parse_csv_unreadable (some rec ∷ reads) h =
    let left : (records reads ≡ none) = ground (arith, h) in
    elim (Bool-cases (all_empty rec)) [
      | inl skip ↦ rw (skip, parse_csv_rows, find_header) (parse_csv_unreadable reads left)
      | inr header ↦
          rw (header, parse_csv_rows, find_header, rows_from_unreadable rec reads left) refl
    ]

parse_csv-table :
    (reads : Reads) (recs : List (List String))
    → records reads ≡ some recs
    → parse_csv_rows reads ≡ table_of (filled recs)
unfolding parse_csv_rows find_header records
parse_csv-table [] recs h = rw (← some-injective [] recs h) refl
parse_csv-table (none ∷ reads) recs h = absurd (ground (arith, h))
parse_csv-table (some rec ∷ reads) recs h = elim (Option-cases (records reads)) [
  | inl bad ↦ absurd (ground (arith, bad, h))
  | inr (recs', good) ↦
      let is_recs : (rec ∷ recs' ≡ recs) = ground (arith, good, h) in
      elim (Bool-cases (all_empty rec)) [
        | inl skip ↦
            rw (← is_recs, skip, parse_csv_rows, find_header) (parse_csv-table reads recs' good)
        | inr header ↦
            rw
              (
                ← is_recs,
                header,
                parse_csv_rows,
                find_header,
                rows_from-filled rec reads recs' good,
              )
              refl
      ]
]

-- parseCSVRows fails where a record cannot be read, or where every record is empty; else its header is the
-- first record with a value, and its rows are those of the later records with a value, in order.
pub parse_csv_rows_lem :
    (reads : Reads)
    → parse_csv_rows reads
      ≡ elim (records reads) [ none ↦ err unreadable | some recs ↦ table_of (filled recs) ]
parse_csv_rows_lem reads = elim (Option-cases (records reads)) [
  | inl bad ↦ rw bad (parse_csv_unreadable reads bad)
  | inr (recs, good) ↦ rw good (parse_csv-table reads recs good)
]

abbrev pub Absent : String → List String → Type 0
Absent x [] = Unit
Absent x (y ∷ ys) = (x ≢ y) × Absent x ys

abbrev pub Distinct : List String → Type 0
Distinct [] = Unit
Distinct (name ∷ names) = Absent name names × Distinct names

row_from-Absent :
    (row : Dict String) (names vs : List String) (name : String)
    → Absent name names
    → find (row_from row names vs) name ≡ find row name
unfolding row_from
row_from-Absent row [] vs name h = refl
row_from-Absent row (n ∷ ns) [] name h = refl
row_from-Absent row (n ∷ ns) (v ∷ vs) name h =
    row_from-Absent (put row n v) ns vs name h.1
    ∙ ground (arith, find-put row n name v, h.0, eq_iff n name)

Absent-get :
    (x name : String) (names : List String) (i : ℕ)
    → Absent x names
    → get_elem? names i ≡ some name
    → x ≢ name
Absent-get x name [] i h at e = ground (arith, at)
Absent-get x name (n ∷ ns) zero h at e = h.0 (e ∙ sym (some-injective n name at))
Absent-get x name (n ∷ ns) (suc i) h at e = Absent-get x name ns i h.1 at e

row_from-cell :
    (row : Dict String) (names vs : List String) (i : ℕ) (name : String)
    → Distinct names
    → get_elem? names i ≡ some name
    → find row name ≡ none
    → find (row_from row names vs) name ≡ get_elem? vs i
unfolding row_from
row_from-cell row [] vs i name d at new = absurd (ground (arith, at))
row_from-cell row (n ∷ ns) [] i name d at new = new
row_from-cell row (n ∷ ns) (v ∷ vs) zero name d at new =
    let here : n ≡ name = some-injective n name at in
    row_from-Absent (put row n v) ns vs name (subst (λ x. Absent x ns) here d.0)
    ∙ ground (arith, find-put row n name v, here, eq_iff n name)
row_from-cell row (n ∷ ns) (v ∷ vs) (suc i) name d at new =
    row_from-cell (put row n v) ns vs i name d.1 at
      (ground (arith, find-put row n name v, Absent-get n name ns i d.0 at, eq_iff n name, new))

-- Under a header of distinct names, a row holds in each column the value that its record has at that place,
-- and nothing in the columns that the record does not reach.
pub find-row_from :
    (header rec : List String) (i : ℕ) (name : String)
    → Distinct header
    → get_elem? header i ≡ some name
    → find (row_from [] header rec) name ≡ get_elem? rec i
unfolding find
find-row_from header rec i name d at = row_from-cell [] header rec i name d at refl
