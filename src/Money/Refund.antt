-- ===== src/Money/Refund.antt =====
-- packages/analytics/src/refund-math.ts. The stored value and commission of a conversion are whole
-- cents; the refunded amount comes from a request and may be any fraction of a cent.
use native.Mathlib.Nat.{le_antisymm}
use build_affiliate.Common.{
  ℕ, ◌+◌, ◌-◌, ◌*◌, ◌≤◌, ◌<◌, ◌≡◌, Bool, true, arith, Bool-cases, inl, inr, ==_iff, ltb, ◌==◌,
  if◌then◌else◌,
}
use build_affiliate.Common.Ratio.{Ratio, round_div, round_div-le}

pub record RefundOutcome : Type 0 where
  pub remaining_value : ℕ
  pub remaining_commission : ℕ
  pub clawback_amount : ℕ
  pub is_full_refund : Bool

pub data RefundError : Type 0 where
  not_positive exceeds_value : RefundError

pub data RefundResult : Type 0 where
  refunded : RefundOutcome → RefundResult
  refused : RefundError → RefundResult

-- `originalCommission * keptShare`, with the guard for an order worth nothing.
unfoldable pub kept_commission : ℕ → ℕ → ℕ → ℕ
kept_commission original_value original_commission remaining_value =
    if original_value == 0
    then 0
    else round_div (original_commission * remaining_value) original_value

-- The body below the two guards. `-` is exact: `refund_splits` shows that the kept commission is
-- at most the original one, and the guards bound the refund by the value.
unfoldable pub refund_outcome : ℕ → ℕ → Ratio → RefundOutcome
unfolding kept_commission
refund_outcome original_value original_commission refund_amount =
    let remaining_value =
      round_div (original_value * refund_amount.den - refund_amount.num) refund_amount.den in
    let remaining_commission = kept_commission original_value original_commission remaining_value in
    record {
      remaining_value = remaining_value;
      remaining_commission = remaining_commission;
      clawback_amount = original_commission - remaining_commission;
      is_full_refund = remaining_value == 0;
    }

unfoldable pub calculate_refund : ℕ → ℕ → Ratio → RefundResult
calculate_refund original_value original_commission refund_amount =
    if refund_amount.num == 0
    then refused not_positive
    else if ltb (original_value * refund_amount.den) refund_amount.num
    then refused exceeds_value
    else refunded (refund_outcome original_value original_commission refund_amount)

remaining_le : (v : ℕ) (r : Ratio) → 0 < r.den → round_div (v * r.den - r.num) r.den ≤ v
remaining_le v r h = round_div-le (v * r.den - r.num) v r.den h (omega arith)

pub kept_commission-le : (v c k : ℕ) → k ≤ v → kept_commission v c k ≤ c
unfolding kept_commission
kept_commission-le v c k h = elim (Bool-cases (v == 0)) [
  | inl zero_ ↦ rw zero_ (omega arith)
  | inr some_ ↦ rw some_ (round_div-le (c * k) c v (ground arith) (grind arith))
]

refunded_outcome :
    (v c : ℕ) (r : Ratio) {o : RefundOutcome}
    → calculate_refund v c r ≡ refunded o
    → (refund_outcome v c r ≡ o) × (0 < r.num) × (r.num ≤ v * r.den)
unfolding calculate_refund
refunded_outcome v c r e = (ground arith, ground arith, ground arith)

kept_of_nothing : (v c : ℕ) → kept_commission v c 0 ≡ 0
unfolding kept_commission
kept_of_nothing v c = elim (Bool-cases (v == 0)) [
  | inl zero_ ↦ rw zero_
  | inr some_ ↦
      rw some_ (le_antisymm (round_div-le (c * 0) 0 v (ground arith) (omega arith)) (omega arith))
]

outcome_splits :
    (v c : ℕ) (r : Ratio)
    → 0 < r.den
    → 0 < r.num
    → r.num ≤ v * r.den
    → let o = refund_outcome v c r in
      (o.remaining_commission + o.clawback_amount ≡ c)
      × (o.remaining_value ≤ v)
      × (o.is_full_refund ≡ true → o.clawback_amount ≡ c)
      × (r.num ≡ v * r.den → o.is_full_refund ≡ true)
unfolding refund_outcome
outcome_splits v c r h p q =
    let k = round_div (v * r.den - r.num) r.den in
    let less = kept_commission-le v c k (remaining_le v r h) in
    (
      omega (arith, less),
      remaining_le v r h,
      λ full. rw ((==_iff k 0).0 full, kept_of_nothing v c) (omega arith),
      λ all.
          (==_iff k 0).1
            (le_antisymm (round_div-le (v * r.den - r.num) 0 r.den h (omega arith)) (omega arith)),
    )

-- Whatever is refunded of a positive order: the commission kept and the commission taken back add
-- up to the original, the order never grows, a refund of all of it is reported as a full one,
-- and a full refund takes back the whole commission.
pub refund_splits :
    (v c : ℕ) (r : Ratio) {o : RefundOutcome}
    → 0 < r.den
    → calculate_refund v c r ≡ refunded o
    → (o.remaining_commission + o.clawback_amount ≡ c)
      × (o.remaining_value ≤ v)
      × (o.is_full_refund ≡ true → o.clawback_amount ≡ c)
      × (r.num ≡ v * r.den → o.is_full_refund ≡ true)
refund_splits v c r h e =
    let (same, positive, within) = refunded_outcome v c r e in
    rw (← same) (outcome_splits v c r h positive within)
