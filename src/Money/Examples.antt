-- ===== src/Money/Examples.antt =====
-- The theorems on amounts at concrete inputs, in cents.
use build_affiliate.Common.{◌≡◌, refl, ◌+◌, some, [], ◌∷◌, arith}
use build_affiliate.Common.Int.{pos, ◌+ℤ◌}
use build_affiliate.Common.Ratio.{Ratio, whole, percent_of, round_ratio}
use build_affiliate.Money.Fee.{calculate_payout_breakdown, breakdown_adds_up}
use build_affiliate.Money.Refund.{refund_outcome, calculate_refund, refund_splits}
use build_affiliate.Money.Commission.{Tier, tiered_percentage, calculate_commission}
use build_affiliate.Money.Tiers.{IsRightTier, chosen_tier_right}
use build_affiliate.Money.Attribution.{AttributionClick}

abbrev two_and_a_half : Ratio
two_and_a_half = record { num = 5; den = 2 }

breakdown_adds_up_example :
    (calculate_payout_breakdown 12345 two_and_a_half).net
      +ℤ pos (calculate_payout_breakdown 12345 two_and_a_half).fee
    ≡ pos 12345
breakdown_adds_up_example =
    (breakdown_adds_up 12345 two_and_a_half
      (record { positive_den = omega arith; at_most_100 = omega arith })).0

refund_splits_example :
    (refund_outcome 10000 1000 (whole 2505)).remaining_commission
      + (refund_outcome 10000 1000 (whole 2505)).clawback_amount
    ≡ 1000
unfolding calculate_refund
refund_splits_example = (refund_splits 10000 1000 (whole 2505) (omega arith) refl).0

abbrev tier_10 : Tier
tier_10 = record { min_sales = 10; percentage = whole 20 }

abbrev tier_0 : Tier
tier_0 = record { min_sales = 0; percentage = whole 10 }

chosen_tier_right_example :
    (t : Tier) × IsRightTier 12 (tier_10 ∷ tier_0 ∷ []) t
    × (calculate_commission (tiered_percentage (tier_10 ∷ tier_0 ∷ [])) (whole 5000) 12
        ≡ some (round_ratio (percent_of (whole 5000) t.percentage)))
chosen_tier_right_example = chosen_tier_right 12 (whole 5000) tier_10 (tier_0 ∷ [])

abbrev click_a : AttributionClick
click_a = record { tracking_link_id = 1; affiliate_id = 7; timestamp = 100 }

abbrev click_b : AttributionClick
click_b = record { tracking_link_id = 2; affiliate_id = 8; timestamp = 50 }

abbrev click_a_again : AttributionClick
click_a_again = record { tracking_link_id = 1; affiliate_id = 7; timestamp = 200 }
