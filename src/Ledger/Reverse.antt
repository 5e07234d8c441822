-- ===== src/Ledger/Reverse.antt =====
-- `reverse` of apps/api/src/services/conversion.service.ts. Ownership is checked before the
-- transaction; all else is read and written inside it, under an advisory lock on the conversion.
pub mod Laws
pub mod Kept
use Prim.Native.String.{String}
use build_affiliate.Common.{
  ℕ, ◌≡◌, Bool, true, false, ◌&&◌, not, Option, none, some, List, [], ◌∷◌, ◌++◌, find, update_where,
  ◌==◌, if◌then◌else◌, suc,
}
use build_affiliate.Common.Int.{ℤ, pos, ◌-ℤ◌}
use build_affiliate.Common.Ratio.{Ratio, whole}
use build_affiliate.Common.Result.{Result, ok, err, ◌>>=◌, ◌>>◌, guard, or_throw}
use build_affiliate.Money.Refund.{RefundOutcome, RefundResult, refunded, refused, calculate_refund}
use build_affiliate.Webhook.Tables.{WebhookEventType, WebhookPayload, of_reversal}
use build_affiliate.Ledger.Tables.{
  Store, Conversion, ConversionStatus, Commission, CommissionStatus, Campaign, Notification,
  NotificationType, BalanceAdjustment, LedgerError, conversion_not_found, forbidden, not_approved,
  refund_refused, commission_not_found, commission_in_payout, included_in_payout, paid, clawed_back,
}
use build_affiliate.Ledger.Rows.{same_conversion_status, same_commission_status}
use build_affiliate.Ledger.Outbox.{enqueue_notification, enqueue_webhook_event}
use build_affiliate.Ledger.Review.{owned_by}

pub record ReverseInput : Type 0 where
  pub reason : String
  pub refund_amount : Option Ratio

-- `input.refundAmount ?? originalValue`.
abbrev pub refund_of : Option Ratio → ℕ → Ratio
refund_of none value = whole value
refund_of (some r) value = r

-- The error of `calculateRefund` becomes a 400.
abbrev pub or_bad_request : RefundResult → Result LedgerError RefundOutcome
or_bad_request (refunded o) = ok o
or_bad_request (refused e) = err refund_refused

unfoldable pub reverse_conversion : RefundOutcome → ReverseInput → ℕ → Conversion → Conversion
reverse_conversion o input now c =
    if o.is_full_refund
    then record c {
      status = ConversionStatus.rejected;
      rejected_at = some now;
      rejection_reason = some input.reason;
    }
    else record c {
      conversion_value = o.remaining_value;
      commission_amount = o.remaining_commission;
      notes = some input.reason;
    }

-- The adjustment that a refund of a paid commission leaves: a negative amount.
unfoldable pub clawback : ℕ → Conversion → RefundOutcome → BalanceAdjustment
clawback id conv o = record {
  id = id;
  affiliate_id = conv.affiliate_id;
  amount = pos 0 -ℤ pos o.clawback_amount;
  conversion_id = some conv.id;
  settled_payout_id = none;
}

abbrev pub reverse_row : RefundOutcome → Commission → Commission
reverse_row o c =
    if o.is_full_refund
    then record c { status = clawed_back }
    else record c { amount = o.remaining_commission }

-- What happens to the commission, by how far it has travelled.
unfoldable pub reverse_commission : Store → Conversion → Commission → RefundOutcome → Store
unfolding clawback
reverse_commission s conv commission o =
    if same_commission_status commission.status paid
    then record s {
      adjustments = s.adjustments ++ clawback s.next_id conv o ∷ [];
      next_id = suc s.next_id;
    }
    else record s {
      commissions = update_where (λ c. c.id == commission.id) (reverse_row o) s.commissions;
    }

unfoldable pub write_reversal :
    Store → Conversion → Commission → RefundOutcome → ReverseInput → Ratio → ℕ → Store
unfolding reverse_commission
write_reversal s conv commission o input refund now =
    reverse_commission
      (record s {
        conversions =
            update_where (λ c. c.id == conv.id) (reverse_conversion o input now) s.conversions;
        link_changes =
            s.link_changes
            ++ record {
              tracking_link_id = conv.tracking_link_id;
              revenue_decrement = refund;
              count_decrement = if o.is_full_refund then 1 else 0;
            }
              ∷ [];
      })
      conv commission o

-- What the affiliate and the brand are told, on every reversal.
unfoldable pub notify_reversal : ℕ → ℕ → Conversion → RefundOutcome → ReverseInput → Store → Store
notify_reversal now brand_id conv o input s =
    enqueue_webhook_event now brand_id WebhookEventType.conversion_reversed
      (of_reversal (record {
        conversion_id = conv.id;
        campaign_id = conv.campaign_id;
        affiliate_id = conv.affiliate_id;
        order_id = conv.external_order_id;
        is_full_refund = o.is_full_refund;
        clawback_amount = o.clawback_amount;
        remaining_value = o.remaining_value;
        remaining_commission = o.remaining_commission;
        reason = input.reason;
      }))
      (enqueue_notification
        (record {
          user_id = conv.affiliate_id;
          type = NotificationType.commission_clawed_back;
          subject_id = conv.id;
          order_id = some conv.external_order_id;
          amount = pos o.clawback_amount;
          reason = some input.reason;
        })
        s)

-- `clawbackMethod` of the response.
pub data ClawbackMethod : Type 0 where
  balance_adjustment commission_change : ClawbackMethod

abbrev pub method_of : Commission → ClawbackMethod
method_of c = if same_commission_status c.status paid then balance_adjustment else commission_change

-- The transaction.
unfoldable pub reverse_locked :
    Store → ℕ → ℕ → ReverseInput → ℕ → Result LedgerError (Store × RefundOutcome × ClawbackMethod)
reverse_locked s brand_id conversion_id input now = do
  conv ← or_throw (find (λ c. c.id == conversion_id) s.conversions) conversion_not_found
  guard (same_conversion_status conv.status ConversionStatus.approved) not_approved
  let refund = refund_of input.refund_amount conv.conversion_value
  o ← or_bad_request (calculate_refund conv.conversion_value conv.commission_amount refund)
  commission ←
      or_throw (find (λ c. c.conversion_id == conversion_id) s.commissions) commission_not_found
  guard (not (same_commission_status commission.status included_in_payout)) commission_in_payout
  ok (
    notify_reversal now brand_id conv o input (write_reversal s conv commission o input refund now),
    o,
    method_of commission,
  )

unfoldable pub reverse :
    Store → ℕ → ℕ → ReverseInput → ℕ → Result LedgerError (Store × RefundOutcome × ClawbackMethod)
reverse s brand_id conversion_id input now = do
  owned ← or_throw (find (λ c. c.id == conversion_id) s.conversions) conversion_not_found
  guard (owned_by brand_id (find (λ k. k.id == owned.campaign_id) s.campaigns)) forbidden
  reverse_locked s brand_id conversion_id input now
