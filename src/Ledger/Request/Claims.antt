-- ===== src/Ledger/Request/Claims.antt =====
-- Which rows a payout request claims and settles.
use build_affiliate.Common.{
  ℕ, ◌≡◌, refl, Bool, true, false, ◌&&◌, List, [], ◌∷◌, filter, update_where, count, sum_of, arith,
  All, All-filter, All-weaken,
}
use build_affiliate.Ledger.Tables.{Commission, BalanceAdjustment}
use build_affiliate.Ledger.Rows.{is_id, amount_of, claimable, unsettled, listed, listed_adjustment}
use build_affiliate.Ledger.Request.{claim, settle, claimed_rows}
use build_affiliate.Ledger.Transition.Effects.{owed, paid_out, included_for}

listed_self : (rows : List Commission) → All (λ c. listed rows c ≡ true) rows
listed_self [] = tt
listed_self (r ∷ rows) = (
  ground arith,
  All-weaken (λ c. listed rows c ≡ true) (λ c. listed (r ∷ rows) c ≡ true) rows
      (λ c h. ground arith) (listed_self rows),
)

-- In the claiming update, being listed adds nothing to being claimable.
pub claimed-claimable :
    (affiliate : ℕ) (cs : List Commission)
    → All
        (λ c. claimed_rows affiliate (filter (claimable affiliate) cs) c ≡ claimable affiliate c)
        cs
claimed-claimable affiliate cs =
    let rows = filter (claimable affiliate) cs in
    All-weaken (λ c. claimable affiliate c ≡ true → listed rows c ≡ true)
      (λ c. claimed_rows affiliate rows c ≡ claimable affiliate c) cs
      (λ c h. both (listed rows c) (claimable affiliate c) h)
      (All-filter (λ c. listed rows c ≡ true) (claimable affiliate) cs (listed_self rows))
  where
    both : (l k : Bool) → (k ≡ true → l ≡ true) → (l && k) ≡ k
    both true k h = refl
    both false true h = h refl
    both false false h = refl

listed_adjustment_self :
    (rows : List BalanceAdjustment) → All (λ a. listed_adjustment rows a ≡ true) rows
listed_adjustment_self [] = tt
listed_adjustment_self (r ∷ rows) = (
  ground arith,
  All-weaken (λ a. listed_adjustment rows a ≡ true) (λ a. listed_adjustment (r ∷ rows) a ≡ true)
      rows (λ a h. ground arith) (listed_adjustment_self rows),
)

-- No commission refers to a payout that does not exist yet.
abbrev pub NotAttached : ℕ → List Commission → Type 0
NotAttached payout cs = All (λ c. is_id payout c.payout_id ≡ false) cs

-- The sums around the claim.
pub claim_sums :
    (affiliate other payout : ℕ) (cs : List Commission)
    → NotAttached payout cs
    → let cs' = update_where (claimable affiliate) (claim payout) cs in
      (owed other cs' ≡ owed other cs)
      × (paid_out other cs' ≡ paid_out other cs)
      × (included_for payout affiliate cs' ≡ sum_of amount_of (filter (claimable affiliate) cs))
      × (count (claimable affiliate) cs' ≡ 0)
claim_sums affiliate other payout [] h = (refl, refl, refl, refl)
claim_sums affiliate other payout (c ∷ cs) h =
    let (o, p, i, n) = claim_sums affiliate other payout cs h.1 in
    let fresh = h.0 in (ground arith, ground arith, ground arith, ground arith)

settled_from :
    (affiliate payout : ℕ) (rows as_ : List BalanceAdjustment)
    → All (λ a. unsettled affiliate a ≡ true → listed_adjustment rows a ≡ true) as_
    → count (unsettled affiliate) (update_where (listed_adjustment rows) (settle payout) as_) ≡ 0
settled_from affiliate payout rows [] h = refl
settled_from affiliate payout rows (a ∷ as_) h =
    ground (arith, settled_from affiliate payout rows as_ h.1, h.0)

-- After the request no adjustment of the affiliate is left unsettled.
pub all_settled :
    (affiliate payout : ℕ) (as_ : List BalanceAdjustment)
    → count
        (unsettled affiliate)
        (update_where (listed_adjustment (filter (unsettled affiliate) as_)) (settle payout) as_)
      ≡ 0
all_settled affiliate payout as_ =
    let rows = filter (unsettled affiliate) as_ in
    settled_from affiliate payout rows as_ (
      All-filter (λ a. listed_adjustment rows a ≡ true) (unsettled affiliate) as_
        (listed_adjustment_self rows))
