-- ===== src/Ledger/Transition/Effects.antt =====
-- What a transition does to the commissions, for the sums that an affiliate is owed and has been
-- paid.
use build_affiliate.Common.{
  ℕ, ◌+◌, ◌≡◌, refl, Bool, ◌&&◌, ◌||◌, List, [], ◌∷◌, update_where, count, sum_of, ◌==◌,
  if◌then◌else◌, arith,
}
use build_affiliate.Ledger.Tables.{Commission, CommissionStatus, included_in_payout, paid}
use build_affiliate.Ledger.Rows.{included_in, same_commission_status}
use build_affiliate.Ledger.Transition.{pay_row, release_row}

-- The amount of a row that a test selects, and 0 of any other.
abbrev pub amount_if : (Commission → Bool) → Commission → ℕ
amount_if p c = if p c then c.amount else 0

-- What an affiliate is owed: rows that are approved or in a payout that has not settled.
abbrev pub is_owed : ℕ → Commission → Bool
is_owed affiliate c =
    c.affiliate_id == affiliate
    && (same_commission_status c.status CommissionStatus.approved
        || same_commission_status c.status included_in_payout)

abbrev pub is_paid : ℕ → Commission → Bool
is_paid affiliate c = c.affiliate_id == affiliate && same_commission_status c.status paid

abbrev pub owed : ℕ → List Commission → ℕ
owed affiliate cs = sum_of (amount_if (is_owed affiliate)) cs

abbrev pub paid_out : ℕ → List Commission → ℕ
paid_out affiliate cs = sum_of (amount_if (is_paid affiliate)) cs

abbrev pub is_included_for : ℕ → ℕ → Commission → Bool
is_included_for payout affiliate c = c.affiliate_id == affiliate && included_in payout c

abbrev pub included_for : ℕ → ℕ → List Commission → ℕ
included_for payout affiliate cs = sum_of (amount_if (is_included_for payout affiliate)) cs

pub released :
    (payout affiliate : ℕ) (cs : List Commission)
    → let cs' = update_where (included_in payout) release_row cs in
      (owed affiliate cs' ≡ owed affiliate cs)
      × (paid_out affiliate cs' ≡ paid_out affiliate cs)
      × (count (included_in payout) cs' ≡ 0)
released payout affiliate [] = (refl, refl, refl)
released payout affiliate (c ∷ cs) =
    let (o, p, n) = released payout affiliate cs in (ground arith, ground arith, ground arith)

pub paid_all :
    (payout affiliate now : ℕ) (cs : List Commission)
    → let cs' = update_where (included_in payout) (pay_row now) cs in
      (owed affiliate cs' + included_for payout affiliate cs ≡ owed affiliate cs)
      × (paid_out affiliate cs' ≡ paid_out affiliate cs + included_for payout affiliate cs)
      × (count (included_in payout) cs' ≡ 0)
paid_all payout affiliate now [] = (omega arith, omega arith, refl)
paid_all payout affiliate now (c ∷ cs) =
    let (o, p, n) = paid_all payout affiliate now cs in (ground arith, ground arith, ground arith)
