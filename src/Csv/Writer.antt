-- ===== src/Csv/Writer.antt =====
-- `escapeCsvValue` and `csvRow` of apps/api/src/lib/csv.ts. A value is the text that `String(value)`
-- gives, or `none` for null and undefined.
pub mod Laws
use build_affiliate.Common.{
  ℕ, Bool, true, false, ◌||◌, Option, none, some, List, [], ◌∷◌, ◌++◌, any, ◌==◌, if◌then◌else◌,
}
use build_affiliate.Csv.{Text, quote, delimiter, line_feed, carriage_return}

abbrev pub apostrophe : ℕ
apostrophe = 39

-- `=`, `+`, `-`, `@`, tab and carriage return.
abbrev pub formula_prefixes : Text
formula_prefixes = 61 ∷ 43 ∷ 45 ∷ 64 ∷ 9 ∷ 13 ∷ []

-- The apostrophe before a formula.
unfoldable pub neutralise : Text → Text
neutralise [] = []
neutralise (ch ∷ str) =
    if any (λ f. ch == f) formula_prefixes then apostrophe ∷ ch ∷ str else ch ∷ str

abbrev pub is_special : ℕ → Bool
is_special ch = ch == quote || ch == delimiter || ch == line_feed || ch == carriage_return

-- `str.replace(/"/g, '""')`.
unfoldable pub double_quotes : Text → Text
double_quotes [] = []
double_quotes (ch ∷ str) =
    if ch == quote then quote ∷ quote ∷ double_quotes str else ch ∷ double_quotes str

unfoldable pub quote_if_needed : Text → Text
quote_if_needed str = if any is_special str then quote ∷ double_quotes str ++ quote ∷ [] else str

unfoldable pub escape_csv_value : Option Text → Text
unfolding neutralise quote_if_needed
escape_csv_value none = []
escape_csv_value (some value) = quote_if_needed (neutralise value)

abbrev pub joined_cells : List (Option Text) → Text
joined_cells [] = []
joined_cells (v ∷ []) = escape_csv_value v
joined_cells (v ∷ w ∷ vs) = escape_csv_value v ++ delimiter ∷ joined_cells (w ∷ vs)

unfoldable pub csv_row : List (Option Text) → Text
unfolding escape_csv_value
csv_row values = joined_cells values ++ carriage_return ∷ line_feed ∷ []
