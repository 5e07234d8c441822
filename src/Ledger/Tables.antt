-- ===== src/Ledger/Tables.antt =====
-- The tables that the payout and conversion services read and write (apps/api/prisma/schema.prisma),
-- as lists of rows in one store. Ids are only compared, so they are numbers;
-- times are epoch milliseconds; amounts are whole cents. `next_id` stands for the database's id
-- generator: an id at least that large has never been given out.
use Prim.Native.String.{String}
use build_affiliate.Common.{ℕ, Option, List}
use build_affiliate.Common.Int.{ℤ}
use build_affiliate.Common.Ratio.{Ratio}
use build_affiliate.Lifecycle.Payout.{PayoutStatus}
use build_affiliate.Webhook.Tables.{WebhookEndpoint, WebhookDelivery}

pub data ConversionStatus : Type 0 where
  pending approved rejected : ConversionStatus

pub data CommissionStatus : Type 0 where
  pending locked approved included_in_payout paid rejected clawed_back : CommissionStatus

pub data PayoutMethod : Type 0 where
  stripe_connect paypal manual : PayoutMethod

pub record User : Type 0 where
  pub id : ℕ
  pub stripe_connect_account_id : Option String
  pub paypal_email : Option String
  pub manual_payout_details : Option String

pub record Campaign : Type 0 where
  pub id : ℕ
  pub brand_id : ℕ

pub record Conversion : Type 0 where
  pub id : ℕ
  pub tracking_link_id : ℕ
  pub campaign_id : ℕ
  pub affiliate_id : ℕ
  pub external_order_id : String
  pub conversion_value : ℕ
  pub commission_amount : ℕ
  pub status : ConversionStatus
  pub notes : Option String
  pub approved_at : Option ℕ
  pub rejected_at : Option ℕ
  pub rejection_reason : Option String

pub record Commission : Type 0 where
  pub id : ℕ
  pub affiliate_id : ℕ
  pub campaign_id : ℕ
  pub conversion_id : ℕ
  pub amount : ℕ
  pub status : CommissionStatus
  pub lock_expires_at : Option ℕ
  pub approved_at : Option ℕ
  pub paid_at : Option ℕ
  pub payout_id : Option ℕ
  pub created_at : ℕ

pub record Payout : Type 0 where
  pub id : ℕ
  pub affiliate_id : ℕ
  pub amount : ℕ
  pub fee_amount : ℕ
  pub net_amount : ℤ
  pub method : PayoutMethod
  pub status : PayoutStatus
  pub stripe_transfer_id : Option String
  pub failure_reason : Option String
  pub idempotency_key : Option String
  pub period_start : ℕ
  pub period_end : ℕ
  pub paid_at : Option ℕ

-- The reason of an event: the text `Requested by affiliate (n commissions)`, or the given one.
pub data EventReason : Type 0 where
  requested : ℕ → EventReason
  stated : Option String → EventReason

pub record PayoutEvent : Type 0 where
  pub payout_id : ℕ
  pub from_status : PayoutStatus
  pub to_status : PayoutStatus
  pub actor_id : ℕ
  pub reason : EventReason
  pub reference : Option String

pub record BalanceAdjustment : Type 0 where
  pub id : ℕ
  pub affiliate_id : ℕ
  pub amount : ℤ
  pub conversion_id : Option ℕ
  pub settled_payout_id : Option ℕ

-- One change of a tracking link's denormalised counters, as the services issue it: a decrement of
-- the revenue (in cents, possibly fractional) and of the number of conversions.
pub record LinkChange : Type 0 where
  pub tracking_link_id : ℕ
  pub revenue_decrement : Ratio
  pub count_decrement : ℕ

-- The notifications that these services enqueue, with the amounts in their payloads.
pub data NotificationType : Type 0 where
  conversion_approved conversion_rejected payout_paid payout_failed commission_clawed_back :
      NotificationType

pub record Notification : Type 0 where
  pub user_id : ℕ
  pub type : NotificationType
  pub subject_id : ℕ  -- the payout or the conversion
  pub order_id : Option String  -- of a conversion
  pub amount : ℤ
  pub reason : Option String

pub record Store : Type 0 where
  pub users : List User
  pub campaigns : List Campaign
  pub conversions : List Conversion
  pub commissions : List Commission
  pub payouts : List Payout
  pub payout_events : List PayoutEvent
  pub adjustments : List BalanceAdjustment
  pub link_changes : List LinkChange
  pub notifications : List Notification
  pub endpoints : List WebhookEndpoint
  pub deliveries : List WebhookDelivery
  pub next_id : ℕ

-- What the operations throw.
pub data LedgerError : Type 0 where
  user_not_found payout_details_missing payout_in_flight no_approved below_minimum
        commissions_changed payout_not_found invalid_transition reason_required conversion_not_found
        forbidden already_reviewed not_approved refund_refused commission_not_found
        commission_in_payout record_missing unique_violation review_conflict :
      LedgerError
