-- ===== src/Csv/Writer/Laws.antt =====
-- What `CsvStreamParser` (csv-parse.ts) reads of a row that `csvRow` (csv.ts) wrote.
use build_affiliate.Common.{
  ℕ, suc, ◌+◌, ◌≡◌, refl, ◌≢◌, inl, inr, Bool, true, false, ◌||◌, not, Option, none, some, List, [],
  ◌∷◌, ◌++◌, map, any, count, sum_of, ◌==◌, if◌then◌else◌, arith, Bool-cases, ap, sym, ◌∙◌,
  append_assoc, append-nil, All, ==_iff,
}
use build_affiliate.Csv.{Text, quote, delimiter, line_feed, carriage_return}
use build_affiliate.Csv.Reader.{
  CsvRecord, CsvStreamParser, new_parser, is_empty, begin, finish, outside, inside, after_quote,
  step, run,
}
use build_affiliate.Csv.Chunks.{run-append}
use build_affiliate.Csv.Writer.{
  neutralise, is_special, double_quotes, quote_if_needed, escape_csv_value, joined_cells, csv_row,
}

-- The line on which a record starts, once it has.
abbrev begun : Bool → ℕ → ℕ → ℕ
begun st l r = if st then r else l

abbrev pub line_feeds : Text → ℕ
line_feeds s = count (λ ch. ch == line_feed) s

-- What the reader has after a line: nothing of the next record, and the record of the line.
abbrev after_row : ℕ → ℕ → List Text → CsvStreamParser × List CsvRecord
after_row m start cells = (
  record new_parser { physical_line = suc m; record_line = start; at_file_start = false },
  record { line = start; values = cells } ∷ [],
)

same_row :
    {m n : ℕ} (start : ℕ) {cells cells' : List Text}
    → m ≡ n
    → cells ≡ cells'
    → after_row m start cells ≡ after_row n start cells'
same_row start e d = λ i. after_row (e i) start (d i)

-- The states of the reader within a row: outside quotes, inside them, and after a quote inside them.
module _ (fields : List Text) where
  abbrev plain : Text → Bool → ℕ → ℕ → CsvStreamParser
  plain f st l r = record {
    in_quotes = false;
    pending_quote = false;
    field = f;
    fields = fields;
    started = st;
    physical_line = l;
    record_line = r;
    at_file_start = false;
  }

  abbrev quoted : Text → ℕ → ℕ → CsvStreamParser
  quoted f l r = record (plain f true l r) { in_quotes = true }

  abbrev closing : Text → ℕ → ℕ → CsvStreamParser
  closing f l r = record (plain f true l r) { in_quotes = true; pending_quote = true }

  step-plain :
      (ch : ℕ) (f : Text) (st : Bool) (l r : ℕ)
      → is_special ch ≡ false
      → step (plain f st l r) ch ≡ (plain (f ++ ch ∷ []) true l (begun st l r), [])
  unfolding step outside begin
  step-plain ch f st l r h = ground arith

  run-plain :
      (s f rest : Text) (l r : ℕ)
      → any is_special s ≡ false
      → run (plain f true l r) (s ++ rest) ≡ run (plain (f ++ s) true l r) rest
  unfolding run
  run-plain [] f rest l r h = ap (λ (g : Text). run (plain g true l r) rest) (sym (append-nil f))
  run-plain (ch ∷ s) f rest l r h =
      let (here, later) : (is_special ch ≡ false) × (any is_special s ≡ false) =
        (ground arith, ground arith) in
      rw (step-plain ch f true l r here) (
        run-plain s (f ++ ch ∷ []) rest l r later
        ∙ ap (λ (g : Text). run (plain g true l r) rest) (append_assoc f (ch ∷ []) s))

  same_closing :
      {f g : Text} {l m : ℕ} (r : ℕ) (rest : Text)
      → f ≡ g
      → l ≡ m
      → run (closing f l r) rest ≡ run (closing g m r) rest
  same_closing r rest e d = λ i. run (closing (e i) (d i) r) rest

  run-quoted :
      (s f rest : Text) (l r : ℕ)
      → run (quoted f l r) (double_quotes s ++ quote ∷ rest)
        ≡ run (closing (f ++ s) (l + line_feeds s) r) rest
  unfolding run double_quotes step inside after_quote
  run-quoted [] f rest l r = same_closing r rest (sym (append-nil f)) (omega arith)
  run-quoted (ch ∷ s) f rest l r = elim (Bool-cases (ch == quote)) [
    | inl q_ ↦ rw ((==_iff ch quote).0 q_) (
        run-quoted s (f ++ quote ∷ []) rest l r
        ∙ same_closing r rest (append_assoc f (quote ∷ []) s) refl)
    | inr other_ ↦ elim (Bool-cases (ch == line_feed)) [
      | inl feed_ ↦
          rw (other_, other_, feed_)
            (run-quoted s (f ++ ch ∷ []) rest (suc l) r
              ∙ same_closing r rest (append_assoc f (ch ∷ []) s) (omega arith))
      | inr data_ ↦
          rw (other_, other_, data_)
            (run-quoted s (f ++ ch ∷ []) rest l r
              ∙ same_closing r rest (append_assoc f (ch ∷ []) s) refl)
    ]
  ]

  step_open :
      (st : Bool) (l r : ℕ) → step (plain [] st l r) quote ≡ (quoted [] l (begun st l r), [])
  unfolding step outside begin
  step_open true l r = refl
  step_open false l r = refl

  step-closing :
      (t : ℕ) (f : Text) (l r : ℕ)
      → t == quote ≡ false
      → step (closing f l r) t ≡ step (plain f true l r) t
  unfolding step after_quote
  step-closing t f l r h = rw h refl

  no_line_feeds : (s : Text) → any is_special s ≡ false → line_feeds s ≡ 0
  no_line_feeds [] h = refl
  no_line_feeds (ch ∷ s) h = ground (arith, no_line_feeds s)

  run_value_in_quotes :
      (s rest : Text) (t : ℕ) (st : Bool) (l r : ℕ)
      → t == quote ≡ false
      → run (plain [] st l r) (quote ∷ (double_quotes s ++ quote ∷ [] ++ t ∷ rest))
        ≡ run (plain s true (l + line_feeds s) (begun st l r)) (t ∷ rest)
  unfolding run
  run_value_in_quotes s rest t st l r h =
      rw (step_open st l r, append_assoc (double_quotes s) (quote ∷ []) (t ∷ rest))
        (run-quoted s [] (t ∷ rest) l (begun st l r)
          ∙ rw (step-closing t s (l + line_feeds s) (begun st l r) h) refl)

  run_free_value :
      (s rest : Text) (st : Bool) (l r : ℕ)
      → s ≢ []
      → any is_special s ≡ false
      → run (plain [] st l r) (s ++ rest)
        ≡ run (plain s true (l + line_feeds s) (begun st l r)) rest
  unfolding run
  run_free_value [] rest st l r n h = absurd (n refl)
  run_free_value (ch ∷ s) rest st l r n h =
      let (here, later) : (is_special ch ≡ false) × (any is_special s ≡ false) =
        (ground arith, ground arith) in
      rw (step-plain ch [] st l r here) (
        run-plain s (ch ∷ []) rest l (begun st l r) later
        ∙ ap (λ (m : ℕ). run (plain (ch ∷ s) true m (begun st l r)) rest)
            (omega (arith, no_line_feeds (ch ∷ s) h)))

  -- A value that is written is read back up to the character after it.
  run_value :
      (s rest : Text) (t : ℕ) (st : Bool) (l r : ℕ)
      → s ≢ []
      → t == quote ≡ false
      → run (plain [] st l r) (quote_if_needed s ++ t ∷ rest)
        ≡ run (plain s true (l + line_feeds s) (begun st l r)) (t ∷ rest)
  unfolding quote_if_needed
  run_value s rest t st l r n h = elim (Bool-cases (any is_special s)) [
    | inl special_ ↦ rw special_ (run_value_in_quotes s rest t st l r h)
    | inr free_ ↦ rw free_ (run_free_value s (t ∷ rest) st l r n free_)
  ]

  cell_comma :
      (s rest : Text) (st : Bool) (l r : ℕ)
      → run (plain [] st l r) (quote_if_needed s ++ delimiter ∷ rest)
        ≡ run
            (record (plain [] true (l + line_feeds s) (begun st l r)) { fields = fields ++ s ∷ [] })
            rest
  unfolding quote_if_needed run step outside begin
  cell_comma [] rest true l r =
      ap (λ (m : ℕ). run (record (plain [] true m r) { fields = fields ++ [] ∷ [] }) rest)
        (omega arith)
  cell_comma [] rest false l r =
      ap (λ (m : ℕ). run (record (plain [] true m l) { fields = fields ++ [] ∷ [] }) rest)
        (omega arith)
  cell_comma (ch ∷ s) rest st l r = run_value (ch ∷ s) rest delimiter st l r (λ e. cc) refl ∙ refl

  cell_end :
      (s : Text) (st : Bool) (l r : ℕ)
      → (st || not (is_empty s)) ≡ true
      → run (plain [] st l r) (quote_if_needed s ++ carriage_return ∷ line_feed ∷ [])
        ≡ after_row (l + line_feeds s) (begun st l r) (fields ++ s ∷ [])
  unfolding quote_if_needed run step outside begin finish
  cell_end [] true l r h = same_row r (omega arith) refl
  cell_end [] false l r h = cc
  cell_end (ch ∷ s) st l r h =
      run_value (ch ∷ s) (line_feed ∷ []) carriage_return st l r (λ e. cc) refl ∙ refl

-- What is read back of a value: nothing for null, and the neutralised text.
unfoldable pub written : Option Text → Text
written none = []
written (some value) = neutralise value

escape-written : (v : Option Text) → escape_csv_value v ≡ quote_if_needed (written v)
unfolding escape_csv_value written quote_if_needed
escape-written none = refl
escape-written (some value) = refl

-- A row that the reader takes for a row: not one that is written as an empty line.
abbrev pub is_visible : List (Option Text) → Bool
is_visible [] = false
is_visible (v ∷ []) = not (is_empty (written v))
is_visible (v ∷ w ∷ vs) = true

abbrev pub feeds_of : Option Text → ℕ
feeds_of v = line_feeds (written v)

run_cells :
    (fields : List Text) (values : List (Option Text)) (st : Bool) (l r : ℕ)
    → (st || is_visible values) ≡ true
    → values ≢ []
    → run (plain fields [] st l r) (csv_row values)
      ≡ after_row (l + sum_of feeds_of values) (begun st l r) (fields ++ map written values)
unfolding csv_row
run_cells fields [] st l r h n = absurd (n refl)
run_cells fields (v ∷ []) st l r h n =
    rw (escape-written v)
      (cell_end fields (written v) st l r h ∙ same_row (begun st l r) (omega arith) refl)
run_cells fields (v ∷ w ∷ vs) st l r h n =
    rw
      (
        escape-written v,
        append_assoc (quote_if_needed (written v)) (delimiter ∷ joined_cells (w ∷ vs))
            (carriage_return ∷ line_feed ∷ []),
      )
      (cell_comma fields (written v) (joined_cells (w ∷ vs) ++ carriage_return ∷ line_feed ∷ []) st
          l r
        ∙ run_cells (fields ++ written v ∷ []) (w ∷ vs) true (l + feeds_of v) (begun st l r) refl
            (λ e. cc)
        ∙ same_row (begun st l r) (omega arith)
            (append_assoc fields (written v ∷ []) (map written (w ∷ vs))))

-- The text of an export: its rows in turn.
abbrev pub csv_text : List (List (Option Text)) → Text
csv_text [] = []
csv_text (row ∷ rows) = csv_row row ++ csv_text rows

-- The rows as records, with the first at line `l`.
abbrev pub records_from : ℕ → List (List (Option Text)) → List CsvRecord
records_from l [] = []
records_from l (row ∷ rows) =
    record { line = l; values = map written row }
    ∷ records_from (suc (l + sum_of feeds_of row)) rows

read_rows :
    (rows : List (List (Option Text))) (l r : ℕ)
    → All (λ row. is_visible row ≡ true) rows
    → (run (plain [] [] false l r) (csv_text rows)).1 ≡ records_from l rows
unfolding run
read_rows [] l r h = refl
read_rows (row ∷ rows) l r h =
    ap (λ (q : CsvStreamParser × List CsvRecord). q.1)
      (run-append (plain [] [] false l r) (csv_row row) (csv_text rows))
    ∙ (rw (run_cells [] row false l r h.0 (λ e. cc (h.0, e))) (
        ap (λ (records : List CsvRecord). record { line = l; values = map written row } ∷ records)
          (read_rows rows (suc (l + sum_of feeds_of row)) l h.1)))

-- Rows that `csvRow` wrote are read back by the reader as they were, formulas with their apostrophe,
-- each with the line of the file on which it starts, also behind values with line breaks, commas and
-- quotes in them. It holds of rows that are not written as an empty line, without the byte-order
-- mark that `push` takes off the start of a file.
pub read_back :
    (rows : List (List (Option Text)))
    → All (λ row. is_visible row ≡ true) rows
    → (run (record new_parser { at_file_start = false }) (csv_text rows)).1 ≡ records_from 1 rows
read_back rows h = read_rows rows 1 1 h
