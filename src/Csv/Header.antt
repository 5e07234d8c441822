-- ===== src/Csv/Header.antt =====
-- `csvHeader`, `missingColumns` and `selectColumns` of packages/analytics/src/csv-parse.ts. What the
-- language's `trim` and `toLowerCase` do to a text, over all of Unicode, are parameters. The `Map` is a
-- list of keys and positions; the object of the selected columns is the list of its entries.
pub mod Selection
use build_affiliate.Common.{
  ℕ, zero, suc, Bool, true, false, ◌&&◌, ◌||◌, not, Option, none, some, List, [], ◌∷◌, ◌++◌, any,
  filter, length, ◌==◌, if◌then◌else◌,
}
use build_affiliate.Csv.{Text}
use build_affiliate.Csv.Reader.{CsvRecord, is_empty}

abbrev pub same_text : Text → Text → Bool
same_text [] [] = true
same_text (c ∷ s) (d ∷ t) = c == d && same_text s t
same_text _ _ = false

pub record CsvHeader : Type 0 where
  pub width : ℕ
  pub index : List (Text × ℕ)

-- `index.has` and `index.get`.
abbrev pub has_column : Text → List (Text × ℕ) → Bool
has_column key index = any (λ q. same_text key q.0) index

abbrev pub position_of : Text → List (Text × ℕ) → Option ℕ
position_of key [] = none
position_of key (q ∷ index) = if same_text key q.0 then some q.1 else position_of key index

-- `values[at]`.
abbrev pub value_at : ℕ → List Text → Option Text
value_at n [] = none
value_at zero (v ∷ vs) = some v
value_at (suc n) (v ∷ vs) = value_at n vs

module _ (trim lower : Text → Text) where
  -- The loop: empty keys are skipped, and the first of equal keys wins.
  unfoldable pub index_from : ℕ → List (Text × ℕ) → List Text → List (Text × ℕ)
  index_from i index [] = index
  index_from i index (raw ∷ values) =
      let key = lower (trim raw) in
      index_from (suc i)
        (if is_empty key || has_column key index then index else index ++ (key, i) ∷ []) values

  unfoldable pub csv_header : List Text → CsvHeader
  unfolding index_from
  csv_header values = record { width = length values; index = index_from 0 [] values }

  unfoldable pub missing_columns : CsvHeader → List Text → List Text
  missing_columns header required =
      filter (λ name. not (has_column (lower name) header.index)) required

  -- The entry of one column, if the header and the record have it.
  abbrev pub entry_of : Text → Option Text → List (Text × Text)
  entry_of name none = []
  entry_of name (some value) = (name, trim value) ∷ []

  abbrev pub value_in : List Text → Option ℕ → Option Text
  value_in values none = none
  value_in values (some at_) = value_at at_ values

  unfoldable pub entries : CsvHeader → CsvRecord → List Text → List (Text × Text)
  entries header row [] = []
  entries header row (name ∷ columns) =
      entry_of name (value_in row.values (position_of (lower name) header.index))
      ++ entries header row columns

  unfoldable pub select_columns : CsvHeader → CsvRecord → List Text → Option (List (Text × Text))
  unfolding entries
  select_columns header row columns =
      if length row.values == header.width then some (entries header row columns) else none
