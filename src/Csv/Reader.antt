-- ===== src/Csv/Reader.antt =====
-- `CsvStreamParser` of packages/analytics/src/csv-parse.ts: its fields as a record, the body of the
-- loop of `push` as `step`, one function for each part of the body.
use build_affiliate.Common.{
  ℕ, suc, Bool, true, false, ◌&&◌, List, [], ◌∷◌, ◌++◌, ◌==◌, if◌then◌else◌,
}
use build_affiliate.Common.Result.{Result, ok, err}
use build_affiliate.Csv.{Text, quote, delimiter, bom, line_feed, carriage_return}

pub record CsvRecord : Type 0 where
  pub line : ℕ
  pub values : List Text

-- The line on which the unterminated field's record starts.
pub data CsvParseError : Type 0 where
  unterminated : ℕ → CsvParseError

pub record CsvStreamParser : Type 0 where
  pub in_quotes : Bool
  pub pending_quote : Bool
  pub field : Text
  pub fields : List Text
  pub started : Bool
  pub physical_line : ℕ
  pub record_line : ℕ
  pub at_file_start : Bool

abbrev pub new_parser : CsvStreamParser
new_parser = record {
  in_quotes = false;
  pending_quote = false;
  field = [];
  fields = [];
  started = false;
  physical_line = 1;
  record_line = 1;
  at_file_start = true;
}

abbrev pub is_empty : Text → Bool
is_empty [] = true
is_empty (_ ∷ _) = false

unfoldable pub begin : CsvStreamParser → CsvStreamParser
begin p = if p.started then p else record p { started = true; record_line = p.physical_line }

unfoldable pub finish : CsvStreamParser → CsvStreamParser × List CsvRecord
finish p =
    if p.started
    then (
      record p { fields = []; field = []; started = false },
      record { line = p.record_line; values = p.fields ++ p.field ∷ [] } ∷ [],
    )
    else (record p { fields = []; field = [] }, [])

abbrev pub end_line : CsvStreamParser → CsvStreamParser × List CsvRecord
end_line p =
    let (q, records) = finish p in (record q { physical_line = suc q.physical_line }, records)

abbrev pub end_field : CsvStreamParser → CsvStreamParser
end_field p = record p { fields = p.fields ++ p.field ∷ []; field = [] }

abbrev pub add_unit : ℕ → CsvStreamParser → CsvStreamParser
add_unit ch p = record p { field = p.field ++ ch ∷ [] }

-- A character outside quotes.
unfoldable pub outside : CsvStreamParser → ℕ → CsvStreamParser × List CsvRecord
outside p ch =
    if ch == quote && is_empty p.field
    then (record (begin p) { in_quotes = true }, [])
    else if ch == delimiter
    then (end_field (begin p), [])
    else if ch == line_feed
    then end_line p
    else if ch == carriage_return
    then (p, [])
    else (add_unit ch (begin p), [])

-- A character inside quotes.
unfoldable pub inside : CsvStreamParser → ℕ → CsvStreamParser
inside p ch =
    if ch == quote
    then record p { pending_quote = true }
    else if ch == line_feed
    then add_unit ch (record p { physical_line = suc p.physical_line })
    else add_unit ch p

-- A character after a quote inside quotes.
unfoldable pub after_quote : CsvStreamParser → ℕ → CsvStreamParser × List CsvRecord
unfolding outside
after_quote p ch =
    if ch == quote
    then (add_unit quote (record p { pending_quote = false }), [])
    else outside (record p { pending_quote = false; in_quotes = false }) ch

unfoldable pub step : CsvStreamParser → ℕ → CsvStreamParser × List CsvRecord
step p ch =
    if p.pending_quote
    then after_quote p ch
    else if p.in_quotes
    then (inside p ch, [])
    else outside p ch

-- The loop of `push`.
unfoldable pub run : CsvStreamParser → Text → CsvStreamParser × List CsvRecord
run p [] = (p, [])
run p (ch ∷ text) =
    let (q, records) = step p ch in let (r, more) = run q text in (r, records ++ more)

abbrev pub strip_bom : Text → Text
strip_bom [] = []
strip_bom (ch ∷ text) = if ch == bom then text else ch ∷ text

unfoldable pub push : CsvStreamParser → Text → CsvStreamParser × List CsvRecord
push p chunk =
    run (record p { at_file_start = false }) (if p.at_file_start then strip_bom chunk else chunk)

abbrev pub close_quote : CsvStreamParser → CsvStreamParser
close_quote p = if p.pending_quote then record p { pending_quote = false; in_quotes = false } else p

unfoldable pub end_of_stream : CsvStreamParser → Result CsvParseError (List CsvRecord)
end_of_stream p =
    let q = close_quote p in
    if q.in_quotes then err (unterminated q.record_line) else ok (finish q).1
