-- ===== src/Idempotency/Fingerprint.antt =====
-- `canonicalise` and `fingerprint` of apps/api/src/lib/fingerprint.ts. A JSON value is a scalar, an
-- array or an object, whose entries stand in the order of `Object.entries`; a key is the list of
-- its UTF-16 code units, which is what `<` compares. `undefined` is what a body may hold before
-- it is serialised. `Object.fromEntries` is the list of its entries.
use build_affiliate.Common.{
  ℕ, Bool, true, false, ◌||◌, ◌&&◌, Option, none, some, [], ◌∷◌, ltb, ◌==◌, if◌then◌else◌,
}
use build_affiliate.Csv.{Text}

mutual
  pub data Json : Type 0 where
    undefined null : Json
    scalar : Text → Json  -- a string, a number or a truth value, as it is written
    array : Items → Json
    object : Entries → Json

  pub data Items : Type 0 where
    no_items : Items
    item : Json → Items → Items

  pub data Entries : Type 0 where
    no_entries : Entries
    entry : Text → Json → Entries → Entries

-- `a < b` on strings.
unfoldable pub text_lt : Text → Text → Bool
text_lt [] [] = false
text_lt [] (b ∷ bs) = true
text_lt (a ∷ as_) [] = false
text_lt (a ∷ as_) (b ∷ bs) = ltb a b || a == b && text_lt as_ bs

abbrev pub is_undefined : Json → Bool
is_undefined undefined = true
is_undefined _ = false

-- An entry put in its place among sorted ones: before those whose key is not less.
unfoldable pub insert_entry : Text → Json → Entries → Entries
insert_entry k v no_entries = entry k v no_entries
insert_entry k v (entry l u es) =
    if text_lt l k then entry l u (insert_entry k v es) else entry k v (entry l u es)

-- The filter, the sort and the map over the values in one pass, as an insertion sort.
unfoldable mutual
  pub canonicalise : Json → Json
  canonicalise undefined = undefined
  canonicalise null = null
  canonicalise (scalar t) = scalar t
  canonicalise (array items) = array (canonical_items items)
  canonicalise (object es) = object (canonical_entries es)

  pub canonical_items : Items → Items
  canonical_items no_items = no_items
  canonical_items (item v vs) = item (canonicalise v) (canonical_items vs)

  pub canonical_entries : Entries → Entries
  canonical_entries no_entries = no_entries
  canonical_entries (entry k v es) =
      if is_undefined v
      then canonical_entries es
      else insert_entry k (canonicalise v) (canonical_entries es)

abbrev pub or_null : Option Json → Json
or_null none = null
or_null (some body) = body

-- `digest` is SHA-256 of the serialised value.
unfoldable pub fingerprint : (Json → ℕ) → Option Json → ℕ
fingerprint digest body = digest (canonicalise (or_null body))
