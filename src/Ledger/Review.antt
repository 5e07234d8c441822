-- ===== src/Ledger/Review.antt =====
-- `review` of apps/api/src/services/conversion.service.ts. The conversion and its campaign are read
-- and checked before the transaction (`plan_review`); the transaction claims the conversion
-- conditionally (`commit_review`).
pub mod Laws
use Prim.Native.String.{String}
use build_affiliate.Common.{
  ℕ, ◌≡◌, Bool, true, false, ◌&&◌, not, Option, none, some, List, [], ◌∷◌, ◌++◌, find, update_where,
  count, ◌==◌, if◌then◌else◌,
}
use build_affiliate.Common.Int.{ℤ, pos}
use build_affiliate.Common.Result.{Result, ok, err, ◌>>=◌, ◌>>◌, guard, or_throw}
use build_affiliate.Webhook.Tables.{WebhookEventType, WebhookPayload, of_approval}
use build_affiliate.Ledger.Tables.{
  Store, Conversion, ConversionStatus, Commission, CommissionStatus, Campaign, Notification,
  NotificationType, LedgerError, conversion_not_found, forbidden, already_reviewed, review_conflict,
  record_missing,
}
use build_affiliate.Ledger.Rows.{same_conversion_status, expired_by}
use build_affiliate.Ledger.Outbox.{enqueue_notification, enqueue_webhook_event}

pub data Decision : Type 0 where
  approve reject : Decision

pub record ReviewInput : Type 0 where
  pub decision : Decision
  pub reason : Option String

-- `!campaign || campaign.brandId !== brandId` throws.
abbrev pub owned_by : ℕ → Option Campaign → Bool
owned_by brand_id none = false
owned_by brand_id (some c) = c.brand_id == brand_id

unfoldable pub plan_review : Store → ℕ → ℕ → Result LedgerError Conversion
plan_review s brand_id conversion_id = do
  conv ← or_throw (find (λ c. c.id == conversion_id) s.conversions) conversion_not_found
  guard (owned_by brand_id (find (λ k. k.id == conv.campaign_id) s.campaigns)) forbidden
  guard (same_conversion_status conv.status ConversionStatus.pending) already_reviewed
  ok conv

-- `where: { id, status: 'PENDING' }`.
abbrev pub is_pending_row : ℕ → Conversion → Bool
is_pending_row id c = c.id == id && same_conversion_status c.status ConversionStatus.pending

-- A field of an update that is `undefined` leaves the column.
abbrev pub set_or_keep : Option String → Option String → Option String
set_or_keep none old = old
set_or_keep (some new_) old = some new_

abbrev pub decide_row : ReviewInput → ℕ → Decision → Conversion → Conversion
decide_row input now approve c = record c {
  status = ConversionStatus.approved;
  approved_at = some now;
}
decide_row input now reject c = record c {
  status = ConversionStatus.rejected;
  rejected_at = some now;
  rejection_reason = input.reason;
}

abbrev pub reject_row : Commission → Commission
reject_row c = record c { status = CommissionStatus.rejected }

abbrev pub approve_row : ℕ → Commission → Commission
approve_row now c = record c { status = CommissionStatus.approved; approved_at = some now }

-- The update of the commissions: all of the conversion's on a rejection, those whose lock has
-- expired on an approval.
unfoldable pub review_commissions : Decision → ℕ → ℕ → List Commission → List Commission
review_commissions reject id now cs = update_where (λ c. c.conversion_id == id) reject_row cs
review_commissions approve id now cs =
    update_where (λ c. c.conversion_id == id && expired_by now c.lock_expires_at) (approve_row now)
      cs

abbrev pub review_notification : Decision → NotificationType
review_notification approve = NotificationType.conversion_approved
review_notification reject = NotificationType.conversion_rejected

-- The webhook event of an approval; a rejection has none.
abbrev pub emit_review : Decision → ℕ → ℕ → Conversion → Conversion → Store → Store
emit_review reject now brand_id read updated s = s
emit_review approve now brand_id read updated s =
    enqueue_webhook_event now brand_id WebhookEventType.conversion_approved
      (of_approval (record {
        conversion_id = read.id;
        campaign_id = read.campaign_id;
        affiliate_id = read.affiliate_id;
        order_id = read.external_order_id;
        conversion_value = updated.conversion_value;
        commission_amount = updated.commission_amount;
        approved_at = updated.approved_at;
      }))
      s

unfoldable pub write_review : Store → Conversion → ReviewInput → ℕ → Store
write_review s read input now = record s {
  conversions =
      update_where (is_pending_row read.id) (decide_row input now input.decision) s.conversions;
  commissions = review_commissions input.decision read.id now s.commissions;
}

-- The transaction, on the conversion that was read before it.
unfoldable pub commit_review :
    Store → ℕ → Conversion → ReviewInput → ℕ → Result LedgerError (Store × Conversion)
commit_review s brand_id read input now = do
  guard (count (is_pending_row read.id) s.conversions == 1) review_conflict
  let written = write_review s read input now
  updated ← or_throw (find (λ c. c.id == read.id) written.conversions) record_missing
  ok (
    emit_review input.decision now brand_id read updated (
        enqueue_notification
          (record {
            user_id = read.affiliate_id;
            type = review_notification input.decision;
            subject_id = read.id;
            order_id = some read.external_order_id;
            amount = pos read.commission_amount;
            reason = input.reason;
          })
          written),
    updated,
  )

unfoldable pub review : Store → ℕ → ℕ → ReviewInput → ℕ → Result LedgerError (Store × Conversion)
review s brand_id conversion_id input now = do
  read ← plan_review s brand_id conversion_id
  commit_review s brand_id read input now
