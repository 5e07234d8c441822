-- ===== src/Idempotency/Reorder.antt =====
-- The fingerprint of a body does not depend on the order of the keys of its objects.
use build_affiliate.Common.{
  ℕ, Option, ◌≡◌, ◌≢◌, refl, true, false, [], ◌∷◌, if◌then◌else◌, arith, ap, ◌∙◌,
}
use build_affiliate.Csv.{Text}
use build_affiliate.Idempotency.Fingerprint.{
  or_null, fingerprint, Json, Items, Entries, array, object, no_items, item, no_entries, entry,
  text_lt, is_undefined, insert_entry, canonicalise, canonical_items, canonical_entries,
}

-- The order of the keys is linear.
text_lt_asym : (a b : Text) → text_lt a b ≡ true → text_lt b a ≡ false
unfolding text_lt
text_lt_asym [] [] h = refl
text_lt_asym [] (b ∷ bs) h = refl
text_lt_asym (a ∷ as_) [] h = cc
text_lt_asym (a ∷ as_) (b ∷ bs) h = ground (arith, text_lt_asym as_ bs)

text_lt_trans : (a b c : Text) → text_lt a b ≡ true → text_lt b c ≡ true → text_lt a c ≡ true
unfolding text_lt
text_lt_trans [] [] c h k = cc
text_lt_trans [] (b ∷ bs) [] h k = cc
text_lt_trans [] (b ∷ bs) (c ∷ cs) h k = refl
text_lt_trans (a ∷ as_) [] c h k = cc
text_lt_trans (a ∷ as_) (b ∷ bs) [] h k = cc
text_lt_trans (a ∷ as_) (b ∷ bs) (c ∷ cs) h k = ground (arith, text_lt_trans as_ bs cs)

text_lt_total : (a b : Text) → text_lt a b ≡ false → text_lt b a ≡ false → a ≡ b
unfolding text_lt
text_lt_total [] [] h k = refl
text_lt_total [] (b ∷ bs) h k = cc
text_lt_total (a ∷ as_) [] h k = cc
text_lt_total (a ∷ as_) (b ∷ bs) h k = ground (arith, text_lt_total as_ bs)

-- Entries of different keys are inserted in either order.
insert_swap :
    (k l : Text) (v u : Json) (es : Entries)
    → k ≢ l
    → insert_entry k v (insert_entry l u es) ≡ insert_entry l u (insert_entry k v es)
unfolding insert_entry
insert_swap k l v u no_entries apart =
    ground (arith, text_lt_asym k l, text_lt_asym l k, text_lt_total k l)
insert_swap k l v u (entry m x es) apart = ground (
  arith,
  text_lt_asym k l,
  text_lt_asym l k,
  text_lt_total k l,
  text_lt_trans m l k,
  text_lt_trans m k l,
  text_lt_trans l m k,
  insert_swap k l v u es,
)

-- The same value, but for the order of the entries of its objects.
mutual
  pub data SameJson : Json → Json → Type 0 where
    same : (v : Json) → SameJson v v
    in_array : {vs us : Items} → SameItems vs us → SameJson (array vs) (array us)
    in_object : {es fs : Entries} → SameEntries es fs → SameJson (object es) (object fs)

  pub data SameItems : Items → Items → Type 0 where
    none_left : SameItems no_items no_items
    also :
        {v u : Json} {vs us : Items}
        → SameJson v u
        → SameItems vs us
        → SameItems (item v vs) (item u us)

  pub data SameEntries : Entries → Entries → Type 0 where
    none_either : SameEntries no_entries no_entries
    along :
        {v u : Json} {es fs : Entries} (k : Text)
        → SameJson v u
        → SameEntries es fs
        → SameEntries (entry k v es) (entry k u fs)
    swap :
        (k l : Text) (v u : Json) (es : Entries)
        → k ≢ l
        → SameEntries (entry k v (entry l u es)) (entry l u (entry k v es))
    in_turn : {es fs gs : Entries} → SameEntries es fs → SameEntries fs gs → SameEntries es gs

undefined_same : {v u : Json} → SameJson v u → is_undefined v ≡ is_undefined u
undefined_same (same v) = refl
undefined_same (in_array h) = refl
undefined_same (in_object h) = refl

canonical_swap :
    (k l : Text) (v u : Json) (es : Entries)
    → k ≢ l
    → canonical_entries (entry k v (entry l u es)) ≡ canonical_entries (entry l u (entry k v es))
unfolding canonical_entries
canonical_swap k l v u es apart =
    ground (arith, insert_swap k l (canonicalise v) (canonicalise u) (canonical_entries es) apart)

mutual
  unfolding canonicalise

  json-same : {v u : Json} → SameJson v u → canonicalise v ≡ canonicalise u
  json-same (same v) = refl
  json-same (in_array h) = ap array (items-same h)
  json-same (in_object h) = ap object (entries-same h)

  items-same : {vs us : Items} → SameItems vs us → canonical_items vs ≡ canonical_items us
  items-same none_left = refl
  items-same (also h hs) = λ i. item (json-same h i) (items-same hs i)

  entries-same : {es fs : Entries} → SameEntries es fs → canonical_entries es ≡ canonical_entries fs
  entries-same none_either = refl
  entries-same (along {v = v} {u = u} k h hs) = λ i.
      if undefined_same h i
      then entries-same hs i
      else insert_entry k (json-same h i) (entries-same hs i)
  entries-same (swap k l v u es apart) = canonical_swap k l v u es apart
  entries-same (in_turn h k) = entries-same h ∙ entries-same k

pub canonicalise-same : {v u : Json} → SameJson v u → canonicalise v ≡ canonicalise u
canonicalise-same h = json-same h

-- Two bodies that differ in the order of the keys of their objects alone, at any depth, have one
-- fingerprint, whatever the digest; a missing body has that of `null`.
pub fingerprint-same :
    (digest : Json → ℕ) (a b : Option Json)
    → SameJson (or_null a) (or_null b)
    → fingerprint digest a ≡ fingerprint digest b
unfolding fingerprint
fingerprint-same digest a b h = ap digest (json-same h)
