-- ===== src/Money/Commission.antt =====
-- packages/analytics/src/commission-calc.ts and resolve-commission.ts, over the structures of
-- packages/shared/src/types/campaign.ts. The result is in whole cents. Tiers of a structure come
-- from a JSON column, so the list may be empty: `tiers[0]!` is then undefined and reading its
-- percentage throws, which is `none`.
use build_affiliate.Common.{
  ℕ, Bool, true, false, Option, none, some, List, [], ◌∷◌, leb, if◌then◌else◌,
}
use build_affiliate.Common.Ratio.{Ratio, percent_of, max_ratio, min_ratio, round_ratio}
use build_affiliate.Common.Sorting.{sort_by}

pub record Tier : Type 0 where
  pub min_sales : ℕ
  pub percentage : Ratio

pub data CommissionStructure : Type 0 where
  flat_per_sale : Ratio → CommissionStructure
  percentage_of : Ratio → Option Ratio → Option Ratio → CommissionStructure
  tiered_percentage : List Tier → CommissionStructure
  recurring : Ratio → ℕ → CommissionStructure

-- `if (min !== undefined) amount = Math.max(amount, min)`, and the same for the maximum.
abbrev pub at_least : Option Ratio → Ratio → Ratio
at_least none amount = amount
at_least (some low) amount = max_ratio amount low

abbrev pub at_most : Option Ratio → Ratio → Ratio
at_most none amount = amount
at_most (some high) amount = min_ratio amount high

-- The loop over the sorted tiers: the last one whose threshold is reached is kept.
unfoldable pub pick_tier : ℕ → Tier → List Tier → Tier
pick_tier prior chosen [] = chosen
pick_tier prior chosen (tier ∷ tiers) =
    pick_tier prior (if leb tier.min_sales prior then tier else chosen) tiers

abbrev pub first_tier : ℕ → List Tier → Option Tier
first_tier prior [] = none
first_tier prior (tier ∷ tiers) = some (pick_tier prior tier (tier ∷ tiers))

abbrev pub tier_key : Tier → ℕ
tier_key t = t.min_sales

unfoldable pub chosen_tier : List Tier → ℕ → Option Tier
unfolding pick_tier
chosen_tier tiers prior = first_tier prior (sort_by tier_key tiers)

unfoldable pub calculate_commission : CommissionStructure → Ratio → ℕ → Option ℕ
calculate_commission (flat_per_sale flat_amount) order_value prior = some (round_ratio flat_amount)
calculate_commission (percentage_of percentage low high) order_value prior =
    some (round_ratio (at_most high (at_least low (percent_of order_value percentage))))
calculate_commission (tiered_percentage tiers) order_value prior = elim (chosen_tier tiers prior) [
  | none ↦ none
  | some tier ↦ some (round_ratio (percent_of order_value tier.percentage))
]
calculate_commission (recurring percentage months) order_value prior =
    some (round_ratio (percent_of order_value percentage))

pub data RelationshipStatus : Type 0 where
  pending approved rejected deactivated : RelationshipStatus

pub data Origin : Type 0 where
  campaign affiliate_override : Origin

-- A row of the relationship table. The override column holds arbitrary JSON: `Json` is its type,
-- and what the schema makes of a value is the argument `parse` below (`none` where the schema
-- rejects it).
pub record RelationshipLike (Json : Type 0) : Type 0 where
  pub status : RelationshipStatus
  pub custom_commission : Option Json

abbrev pub is_approved : RelationshipStatus → Bool
is_approved approved = true
is_approved _ = false

abbrev pub override_of :
    {Json : Type 0} → (Json → Option CommissionStructure) → Option Json → Option CommissionStructure
override_of parse none = none
override_of parse (some j) = parse j

unfoldable pub resolve_commission_structure :
    {Json : Type 0}
    → CommissionStructure
    → Option (RelationshipLike Json)
    → (Json → Option CommissionStructure)
    → CommissionStructure × Origin
resolve_commission_structure default none parse = (default, campaign)
resolve_commission_structure default (some r) parse =
    if is_approved r.status
    then elim (override_of parse r.custom_commission) [
      | none ↦ (default, campaign)
      | some structure ↦ (structure, affiliate_override)
    ]
    else (default, campaign)
