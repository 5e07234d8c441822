-- ===== src/Ledger/Request.antt =====
-- `requestPayout` of apps/api/src/services/payout.service.ts, with `assertCanReceive` of
-- profile.service.ts. The advisory lock makes the body of the transaction atomic per affiliate.
pub mod Claims
pub mod Handler
use Prim.Native.String.{String}
use build_affiliate.Common.{
  ℕ, suc, ◌+◌, ◌≡◌, Bool, true, false, ◌&&◌, ◌||◌, not, Option, none, some, List, [], ◌∷◌, ◌++◌,
  any, filter, find, update_where, length, count, sum_of, min, max, leb, ◌==◌, if◌then◌else◌,
}
use build_affiliate.Common.Int.{ℤ, pos, pos_part, ◌+ℤ◌}
use build_affiliate.Common.Ratio.{Ratio}
use build_affiliate.Common.Text.{is_truthy, is_text}
use build_affiliate.Common.Result.{Result, ok, err, ◌>>=◌, ◌>>◌, guard, or_throw}
use build_affiliate.Lifecycle.Payout.{PayoutStatus}
use build_affiliate.Money.Fee.{calculate_payout_breakdown, PayoutBreakdown}
use build_affiliate.Ledger.Tables.{
  Store, User, Payout, PayoutEvent, PayoutMethod, stripe_connect, paypal, manual, Commission,
  BalanceAdjustment, included_in_payout, LedgerError, requested, user_not_found,
  payout_details_missing, payout_in_flight, no_approved, below_minimum, commissions_changed,
  unique_violation,
}
use build_affiliate.Ledger.Rows.{
  claimable, unsettled, is_open_for, amount_of, sum_adjustments, listed, listed_adjustment,
}

-- $50, in cents.
abbrev pub minimum_payout_amount : ℕ
minimum_payout_amount = 5000

-- The detail that a payout method needs, and whether it is there.
abbrev pub has_details : PayoutMethod → User → Bool
has_details stripe_connect u = is_truthy u.stripe_connect_account_id
has_details paypal u = is_truthy u.paypal_email
has_details manual u = is_truthy u.manual_payout_details

unfoldable pub assert_can_receive : List User → ℕ → PayoutMethod → Result LedgerError (Unit {0})
assert_can_receive users affiliate method = do
  u ← or_throw (find (λ u. u.id == affiliate) users) user_not_found
  guard (has_details method u) payout_details_missing

abbrev pub has_key : ℕ → String → Payout → Bool
has_key affiliate key p = p.affiliate_id == affiliate && is_text key p.idempotency_key

-- A key that is absent or empty finds nothing.
unfoldable pub find_by_key : List Payout → ℕ → Option String → Option Payout
find_by_key payouts affiliate none = none
find_by_key payouts affiliate (some key) =
    if is_truthy (some key) then find (has_key affiliate key) payouts else none

-- The unique index on (affiliateId, idempotencyKey); nulls are distinct.
unfoldable pub key_taken : List Payout → ℕ → Option String → Bool
key_taken payouts affiliate none = false
key_taken payouts affiliate (some key) = any (has_key affiliate key) payouts

-- `Math.min(...dates)` and `Math.max(...dates)` over the claimed commissions.
abbrev pub earliest : ℕ → List Commission → ℕ
earliest t [] = t
earliest t (c ∷ cs) = earliest (min t c.created_at) cs

abbrev pub latest : ℕ → List Commission → ℕ
latest t [] = t
latest t (c ∷ cs) = latest (max t c.created_at) cs

abbrev pub period_of : (ℕ → List Commission → ℕ) → List Commission → ℕ
period_of f [] = 0
period_of f (c ∷ cs) = f c.created_at cs

-- `Math.max(0, commissionTotal + adjustmentTotal)`.
unfoldable pub gross_of : List Commission → List BalanceAdjustment → ℕ
gross_of approved adjustments =
    pos_part (pos (sum_of amount_of approved) +ℤ sum_adjustments adjustments)

unfoldable pub new_payout :
    ℕ → ℕ → PayoutMethod → Option String → List Commission → PayoutBreakdown → Payout
new_payout id affiliate method key approved b = record {
  id = id;
  affiliate_id = affiliate;
  amount = b.gross;
  fee_amount = b.fee;
  net_amount = b.net;
  method = method;
  status = PayoutStatus.pending;
  stripe_transfer_id = none;
  failure_reason = none;
  idempotency_key = key;
  period_start = period_of earliest approved;
  period_end = period_of latest approved;
  paid_at = none;
}

abbrev pub claim : ℕ → Commission → Commission
claim payout c = record c { status = included_in_payout; payout_id = some payout }

abbrev pub settle : ℕ → BalanceAdjustment → BalanceAdjustment
settle payout a = record a { settled_payout_id = some payout }

-- `updateMany` where the id is listed and the row is still an approved one of the affiliate.
abbrev pub claimed_rows : ℕ → List Commission → Commission → Bool
claimed_rows affiliate approved c = listed approved c && claimable affiliate c

-- The writes of the transaction, from the payout's row on.
unfoldable pub write_payout : Store → ℕ → List Commission → List BalanceAdjustment → Payout → Store
write_payout s affiliate approved adjustments payout = record s {
  payouts = s.payouts ++ payout ∷ [];
  commissions = update_where (claimed_rows affiliate approved) (claim payout.id) s.commissions;
  adjustments = update_where (listed_adjustment adjustments) (settle payout.id) s.adjustments;
  payout_events =
      s.payout_events
      ++ record {
        payout_id = payout.id;
        from_status = PayoutStatus.pending;
        to_status = PayoutStatus.pending;
        actor_id = affiliate;
        reason = requested (length approved);
        reference = none;
      }
        ∷ [];
  next_id = suc s.next_id;
}

-- The transaction of a request.
unfoldable pub create_payout :
    Store → ℕ → PayoutMethod → Option String → Ratio → Result LedgerError (Store × Payout)
create_payout s affiliate method key fee_percent = do
  guard (not (any (is_open_for affiliate) s.payouts)) payout_in_flight
  let approved = filter (claimable affiliate) s.commissions
  guard (not (length approved == 0)) no_approved
  let adjustments = filter (unsettled affiliate) s.adjustments
  let gross = gross_of approved adjustments
  guard (leb minimum_payout_amount gross) below_minimum
  let payout =
      new_payout s.next_id affiliate method key approved
        (calculate_payout_breakdown gross fee_percent)
  guard (not (key_taken s.payouts affiliate key)) unique_violation
  guard (count (claimed_rows affiliate approved) s.commissions == length approved)
      commissions_changed
  ok (write_payout s affiliate approved adjustments payout, payout)

unfoldable pub request_payout :
    Store → ℕ → PayoutMethod → Option String → Ratio → Result LedgerError (Store × Payout)
request_payout s affiliate method key fee_percent = do
  assert_can_receive s.users affiliate method
  elim (find_by_key s.payouts affiliate key) [
    | some existing ↦ ok (s, existing)
    | none ↦ create_payout s affiliate method key fee_percent
  ]
