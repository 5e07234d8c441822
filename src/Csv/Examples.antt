-- ===== src/Csv/Examples.antt =====
-- The theorems on comma-separated text at concrete texts.
use build_affiliate.Common.{List, map, ◌≡◌, refl, false, none, some, [], ◌∷◌, ◌++◌}
use build_affiliate.Csv.{Text}
use build_affiliate.Csv.Header.{csv_header, missing_columns, select_columns, index_from}
use build_affiliate.Csv.Header.Selection.{select_complete}
use build_affiliate.Csv.Reader.{new_parser, push, run}
use build_affiliate.Csv.Chunks.{push_all, joined, push_all-whole}
use build_affiliate.Csv.Writer.{neutralise}
use build_affiliate.Csv.Writer.Laws.{written, csv_text, records_from, read_back}

-- `"a""b",c` and a line feed, cut between the two quotes of the escaped one.
abbrev first_part : Text
first_part = 34 ∷ 97 ∷ 34 ∷ []

abbrev second_part : Text
second_part = 34 ∷ 98 ∷ 34 ∷ 44 ∷ 99 ∷ 10 ∷ []

push_all-whole_example :
    push_all new_parser (first_part ∷ second_part ∷ [])
    ≡ push new_parser (first_part ++ joined (second_part ∷ []))
push_all-whole_example = push_all-whole new_parser first_part (second_part ∷ []) (λ e. cc)

-- A formula and a null; a value with a quote, a comma and a line feed.
read_back_example :
    (run
      (record new_parser { at_file_start = false })
      (csv_text ((some (61 ∷ 49 ∷ []) ∷ none ∷ []) ∷ (some (34 ∷ 44 ∷ 10 ∷ []) ∷ []) ∷ []))).1
    ≡ records_from 1 ((some (61 ∷ 49 ∷ []) ∷ none ∷ []) ∷ (some (34 ∷ 44 ∷ 10 ∷ []) ∷ []) ∷ [])
unfolding written neutralise
read_back_example =
    read_back ((some (61 ∷ 49 ∷ []) ∷ none ∷ []) ∷ (some (34 ∷ 44 ∷ 10 ∷ []) ∷ []) ∷ [])
      (refl, (refl, tt))

-- A header `a,b` and a row `1,2`, with the column `b` required; no letter here needs folding.
select_complete_example :
    (out : List (Text × Text)) × (select_columns
        (λ t. t)
        (λ t. t)
        (csv_header (λ t. t) (λ t. t) ((97 ∷ []) ∷ (98 ∷ []) ∷ []))
        (record { line = 2; values = (49 ∷ []) ∷ (50 ∷ []) ∷ [] })
        ((98 ∷ []) ∷ [])
      ≡ some out)
    × (map (λ (q : Text × Text). q.0) out ≡ (98 ∷ []) ∷ [])
unfolding missing_columns csv_header index_from
select_complete_example =
    (select_complete (λ t. t) (λ t. t) ((97 ∷ []) ∷ (98 ∷ []) ∷ [])
        (record { line = 2; values = (49 ∷ []) ∷ (50 ∷ []) ∷ [] }) ((98 ∷ []) ∷ []) refl).0
      refl
