-- ===== src/Csv/Header/Selection.antt =====
-- What `selectColumns` (csv-parse.ts) gives for a header that lacks no required column.
use build_affiliate.Common.{
  ℕ, zero, suc, ◌+◌, ◌≤◌, ◌<◌, ◌≡◌, refl, true, false, ◌||◌, none, some, List, [], ◌∷◌, ◌++◌, map,
  length, All, ◌==◌, arith, Bool-cases, inl, inr, ap, ==_iff,
}
use build_affiliate.Csv.{Text}
use build_affiliate.Csv.Reader.{CsvRecord, is_empty}
use build_affiliate.Csv.Header.{
  CsvHeader, same_text, has_column, position_of, value_at, index_from, csv_header, missing_columns,
  entries, select_columns,
}

-- Every position is one of the header's cells.
abbrev IsWithin : ℕ → List (Text × ℕ) → Type 0
IsWithin n index = All (λ q. q.1 < n) index

IsWithin-append_one :
    (n : ℕ) (index : List (Text × ℕ)) (key : Text) (i : ℕ)
    → IsWithin n index
    → i < n
    → IsWithin n (index ++ (key, i) ∷ [])
IsWithin-append_one n [] key i h p = (p, tt)
IsWithin-append_one n (q ∷ index) key i h p = (h.0, IsWithin-append_one n index key i h.1 p)

value_at_within : (n : ℕ) (vs : List Text) → n < length vs → (v : Text) × (value_at n vs ≡ some v)
value_at_within n [] h = absurd (omega arith)
value_at_within zero (v ∷ vs) h = (v, refl)
value_at_within (suc n) (v ∷ vs) h = value_at_within n vs (omega arith)

position_found :
    (n : ℕ) (key : Text) (index : List (Text × ℕ))
    → IsWithin n index
    → has_column key index ≡ true
    → (i : ℕ) × (position_of key index ≡ some i) × (i < n)
position_found n key [] h k = cc
position_found n key (q ∷ index) h k = elim (Bool-cases (same_text key q.0)) [
  | inl here_ ↦ (q.1, rw here_ refl, h.0)
  | inr later_ ↦
      let (i, found, low) = position_found n key index h.1 (ground arith) in
      (i, rw later_ found, low)
]

module _ (trim lower : Text → Text) where
  index_from-IsWithin :
      (n i : ℕ) (index : List (Text × ℕ)) (values : List Text)
      → i + length values ≤ n
      → IsWithin n index
      → IsWithin n (index_from trim lower i index values)
  unfolding index_from
  index_from-IsWithin n i index [] p h = h
  index_from-IsWithin n i index (raw ∷ values) p h =
      let key = lower (trim raw) in
      elim (Bool-cases (is_empty key || has_column key index)) [
        | inl skip_ ↦ rw skip_ (index_from-IsWithin n (suc i) index values (omega arith) h)
        | inr new_ ↦ rw new_ (
            index_from-IsWithin n (suc i) (index ++ (key, i) ∷ []) values (omega arith)
              (IsWithin-append_one n index key i h (omega arith)))
      ]

  entries_complete :
      (header : CsvHeader) (row : CsvRecord) (required : List Text)
      → IsWithin (length row.values) header.index
      → missing_columns trim lower header required ≡ []
      → map (λ (q : Text × Text). q.0) (entries trim lower header row required) ≡ required
  unfolding entries missing_columns
  entries_complete header row [] h m = refl
  entries_complete header row (name ∷ required) h m =
      elim (Bool-cases (has_column (lower name) header.index)) [
        | inl has_ ↦
            let (i, found, low) =
              position_found (length row.values) (lower name) header.index h has_ in
            let (v, there) = value_at_within i row.values low in
            rw (found, there)
              (ap (λ (names : List Text). name ∷ names)
                (entries_complete header row required h (rw has_ at m)))
        | inr lacks_ ↦ absurd (cons_not_nil (rw lacks_ at m))
      ]
    where
      cons_not_nil : {names : List Text} → name ∷ names ≡ [] → ⊥
      cons_not_nil e = cc

  -- A record with as many cells as the header, under a header that lacks no required column, has a
  -- value for each of them, in the order they are asked for; a record of any other width has none.
  pub select_complete :
      (values : List Text) (row : CsvRecord) (required : List Text)
      → missing_columns trim lower (csv_header trim lower values) required ≡ []
      → let selected = select_columns trim lower (csv_header trim lower values) row required in
        (length row.values ≡ length values
          → (out : List (Text × Text)) × (selected ≡ some out)
            × (map (λ (q : Text × Text). q.0) out ≡ required))
        × ((length row.values == length values) ≡ false → selected ≡ none)
  unfolding select_columns csv_header
  select_complete values row required m =
      let header = csv_header trim lower values in
      (
        λ same. (
          entries trim lower header row required,
          rw ((==_iff (length row.values) (length values)).1 same) refl,
          entries_complete header row required
              (index_from-IsWithin (length row.values) 0 [] values (omega arith) tt) m,
        ),
        λ other. rw other refl,
      )
