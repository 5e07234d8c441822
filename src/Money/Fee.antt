-- ===== src/Money/Fee.antt =====
-- packages/analytics/src/payout-math.ts. The gross amount is a sum of stored amounts, so it is whole
-- cents and the first `round2` of the source leaves it alone.
use build_affiliate.Common.{ℕ, ◌+◌, ◌-◌, ◌*◌, ◌≤◌, ◌<◌, ◌≡◌, arith}
use build_affiliate.Common.Int.{ℤ, pos, sub_ℕ, ◌+ℤ◌, ◌≤ℤ◌, int_laws}
use build_affiliate.Common.Ratio.{
  Ratio, whole, percent_of, round_ratio, round_div, round_div-le, round_div_near, mul_mono,
}

pub record PayoutBreakdown : Type 0 where
  pub gross : ℕ
  pub fee : ℕ
  pub net : ℤ

unfoldable pub calculate_payout_breakdown : ℕ → Ratio → PayoutBreakdown
calculate_payout_breakdown gross fee_percent =
    let fee = round_ratio (percent_of (whole gross) fee_percent) in
    record { gross = gross; fee = fee; net = sub_ℕ gross fee }

-- A percentage of at most a hundred.
pub record IsPercent (p : Ratio) : Type 0 where
  pub positive_den : 0 < p.den
  pub at_most_100 : p.num ≤ 100 * p.den

pub sub_ℕ_of_le : (a b : ℕ) → b ≤ a → sub_ℕ a b ≡ pos (a - b)
sub_ℕ_of_le a b h = ground arith

fee_le : (gross : ℕ) (p : Ratio) → IsPercent p → gross * p.num ≤ gross * (1 * p.den * 100)
fee_le gross p h = mul_mono gross p.num (1 * p.den * 100) (omega arith)

-- For a percentage of at most 100: fee and net add up to the gross to the cent, the net is not
-- negative, the fee is at most the gross and within half a cent of the exact fee
-- (`gross * num / (den * 100)`).
pub breakdown_adds_up :
    (gross : ℕ) (p : Ratio)
    → IsPercent p
    → let b = calculate_payout_breakdown gross p in
      (b.net +ℤ pos b.fee ≡ pos gross)
      × (pos 0 ≤ℤ b.net)
      × (b.fee ≤ gross)
      × (2 * (p.den * 100) * b.fee ≤ 2 * (gross * p.num) + p.den * 100)
      × (2 * (gross * p.num) < 2 * (p.den * 100) * b.fee + p.den * 100)
unfolding calculate_payout_breakdown
breakdown_adds_up gross p h =
    let n = gross * p.num in
    let d = 1 * p.den * 100 in
    let within = round_div-le n gross d (omega arith) (fee_le gross p h) in
    let near = round_div_near n d (omega arith) in
    rw (sub_ℕ_of_le gross (round_div n d) within)
      (omega int_laws, omega arith, within, omega arith, omega arith)
