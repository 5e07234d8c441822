-- ===== src/Ledger/Rows.antt =====
-- Tests on rows and on whole tables: the `where` clauses of the services' queries.
use build_affiliate.Common.{
  ℕ, Bool, true, false, ◌&&◌, Option, none, some, List, [], ◌∷◌, any, leb, ◌==◌,
}
use build_affiliate.Common.Int.{ℤ, pos, ◌+ℤ◌}
use build_affiliate.Lifecycle.Payout.{PayoutStatus}
use build_affiliate.Ledger.Tables.{
  ConversionStatus, CommissionStatus, Commission, Payout, BalanceAdjustment, locked,
  included_in_payout, paid, clawed_back,
}

abbrev pub same_commission_status : CommissionStatus → CommissionStatus → Bool
same_commission_status CommissionStatus.pending CommissionStatus.pending = true
same_commission_status locked locked = true
same_commission_status CommissionStatus.approved CommissionStatus.approved = true
same_commission_status included_in_payout included_in_payout = true
same_commission_status paid paid = true
same_commission_status CommissionStatus.rejected CommissionStatus.rejected = true
same_commission_status clawed_back clawed_back = true
same_commission_status _ _ = false

abbrev pub same_conversion_status : ConversionStatus → ConversionStatus → Bool
same_conversion_status ConversionStatus.pending ConversionStatus.pending = true
same_conversion_status ConversionStatus.approved ConversionStatus.approved = true
same_conversion_status ConversionStatus.rejected ConversionStatus.rejected = true
same_conversion_status _ _ = false

-- A nullable foreign key that equals an id.
abbrev pub is_id : ℕ → Option ℕ → Bool
is_id n none = false
is_id n (some m) = m == n

abbrev pub is_null : Option ℕ → Bool
is_null none = true
is_null (some _) = false

-- `lockExpiresAt: { lte: now }`, false on null.
abbrev pub expired_by : ℕ → Option ℕ → Bool
expired_by now none = false
expired_by now (some t) = leb t now

-- `status: { in: ['PENDING', 'PROCESSING'] }`.
abbrev pub is_open : PayoutStatus → Bool
is_open PayoutStatus.pending = true
is_open PayoutStatus.processing = true
is_open _ = false

abbrev pub is_open_for : ℕ → Payout → Bool
is_open_for affiliate p = p.affiliate_id == affiliate && is_open p.status

-- The commissions that a request bundles, and the adjustments that it nets off.
abbrev pub claimable : ℕ → Commission → Bool
claimable affiliate c =
    c.affiliate_id == affiliate && same_commission_status c.status CommissionStatus.approved

abbrev pub unsettled : ℕ → BalanceAdjustment → Bool
unsettled affiliate a = a.affiliate_id == affiliate && is_null a.settled_payout_id

abbrev pub included_in : ℕ → Commission → Bool
included_in payout c =
    is_id payout c.payout_id && same_commission_status c.status included_in_payout

abbrev pub amount_of : Commission → ℕ
amount_of c = c.amount

-- `reduce((sum, a) => sum + Number(a.amount), 0)`.
abbrev pub sum_adjustments : List BalanceAdjustment → ℤ
sum_adjustments [] = pos 0
sum_adjustments (a ∷ as_) = a.amount +ℤ sum_adjustments as_

abbrev pub listed : List Commission → Commission → Bool
listed rows c = any (λ r. r.id == c.id) rows

abbrev pub listed_adjustment : List BalanceAdjustment → BalanceAdjustment → Bool
listed_adjustment rows a = any (λ r. r.id == a.id) rows
