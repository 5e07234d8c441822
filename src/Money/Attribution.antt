-- ===== src/Money/Attribution.antt =====
-- packages/analytics/src/attribution.ts: which clicks a conversion is attributed to. The `Map` keyed
-- by tracking link is a list of clicks with distinct links: setting a key that is there replaces the
-- value in place, any other key goes to the end.
pub mod Laws
use build_affiliate.Common.{
  ℕ, suc, ◌≤◌, ◌≡◌, refl, ◌≢◌, Bool, true, false, List, [], ◌∷◌, map, arith, ◌==◌, if◌then◌else◌,
  length, All, Bool-cases, inl, inr, ==_iff, Option, none, some,
}
use build_affiliate.Common.Ratio.{Ratio}
use build_affiliate.Common.Sorting.{
  sort_by, IsSorted, sort_by-IsSorted, All-sort_by_back, All-sort_by,
}

pub data AttributionModel : Type 0 where
  first_click last_click linear : AttributionModel

pub record AttributionClick : Type 0 where
  pub tracking_link_id : ℕ
  pub affiliate_id : ℕ
  pub timestamp : ℕ

pub record AttributionShare : Type 0 where
  pub tracking_link_id : ℕ
  pub affiliate_id : ℕ
  pub share : Ratio

abbrev pub click_time : AttributionClick → ℕ
click_time c = c.timestamp

-- The share `1 / n` of a click.
abbrev pub share_of : ℕ → AttributionClick → AttributionShare
share_of n c = record {
  tracking_link_id = c.tracking_link_id;
  affiliate_id = c.affiliate_id;
  share = record { num = 1; den = n };
}

-- `dedup.set(c.trackingLinkId, c)`.
unfoldable pub set_click : AttributionClick → List AttributionClick → List AttributionClick
set_click c [] = c ∷ []
set_click c (d ∷ ds) =
    if c.tracking_link_id == d.tracking_link_id then c ∷ ds else d ∷ set_click c ds

unfoldable pub dedup_from : List AttributionClick → List AttributionClick → List AttributionClick
unfolding set_click
dedup_from dedup [] = dedup
dedup_from dedup (c ∷ cs) = dedup_from (set_click c dedup) cs

-- `sorted[0]!` and `sorted[sorted.length - 1]!`, of a list that is not empty.
abbrev pub first_share : List AttributionClick → List AttributionShare
first_share [] = []
first_share (c ∷ cs) = share_of 1 c ∷ []

abbrev pub last_of : AttributionClick → List AttributionClick → AttributionClick
last_of c [] = c
last_of c (d ∷ ds) = last_of d ds

abbrev pub last_share : List AttributionClick → List AttributionShare
last_share [] = []
last_share (c ∷ cs) = share_of 1 (last_of c cs) ∷ []

abbrev pub attribute_sorted : AttributionModel → List AttributionClick → List AttributionShare
attribute_sorted first_click sorted = first_share sorted
attribute_sorted last_click sorted = last_share sorted
attribute_sorted linear sorted =
    let unique = dedup_from [] sorted in map (share_of (length unique)) unique

unfoldable pub attribute : AttributionModel → List AttributionClick → List AttributionShare
unfolding dedup_from
attribute model [] = []
attribute model (c ∷ cs) = attribute_sorted model (sort_by click_time (c ∷ cs))
