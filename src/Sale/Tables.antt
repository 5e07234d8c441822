-- ===== src/Sale/Tables.antt =====
-- The tables behind a reported sale (apps/api/prisma/schema.prisma), with the columns that the
-- services of this part write and read. Ids, cookies, addresses and e-mail hashes are only
-- compared, so they are numbers; an order id is the list of its UTF-16 code units; times are epoch
-- milliseconds and stored amounts whole cents.
use build_affiliate.Common.{◌*◌, ℕ, Bool, true, false, ◌&&◌, Option, List, [], ◌∷◌, ◌==◌}
use build_affiliate.Common.Ratio.{Ratio}
use build_affiliate.Csv.{Text}
use build_affiliate.Idempotency.Fingerprint.{Json}
use build_affiliate.Idempotency.Plugin.{same_text}
use build_affiliate.Ledger.Tables.{ConversionStatus, CommissionStatus}
use build_affiliate.Lifecycle.Campaign.{CampaignStatus}
use build_affiliate.Money.Attribution.{AttributionModel}
use build_affiliate.Money.Commission.{CommissionStructure, RelationshipLike}

-- The columns of a campaign that decide about a sale.
pub record CampaignTerms : Type 0 where
  pub id : ℕ
  pub brand_id : ℕ
  pub status : CampaignStatus
  pub structure : CommissionStructure
  pub attribution_model : AttributionModel
  pub attribution_window_days : ℕ
  pub lock_period_days : ℕ

-- A click, with the affiliate and the campaign of its tracking link.
pub record ClickEvent : Type 0 where
  pub id : ℕ
  pub tracking_link_id : ℕ
  pub affiliate_id : ℕ
  pub campaign_id : ℕ
  pub timestamp : ℕ
  pub ip_hash : ℕ
  pub attribution_cookie_id : ℕ
  pub sub_ids : Option Json
  pub is_counted : Bool

pub record BrandAffiliate : Type 0 where
  pub brand_id : ℕ
  pub affiliate_id : ℕ
  pub terms : RelationshipLike Json

pub record Sale : Type 0 where
  pub id : ℕ
  pub tracking_link_id : ℕ
  pub campaign_id : ℕ
  pub affiliate_id : ℕ
  pub click_event_id : Option ℕ
  pub sub_ids : Option Json
  pub external_order_id : Text
  pub conversion_value : ℕ
  pub commission_amount : ℕ
  pub status : ConversionStatus
  pub customer_email_hash : Option ℕ
  pub is_first_time_customer : Bool
  pub occurred_at : ℕ
  pub created_at : ℕ

pub record SaleCommission : Type 0 where
  pub id : ℕ
  pub affiliate_id : ℕ
  pub campaign_id : ℕ
  pub conversion_id : ℕ
  pub amount : ℕ
  pub status : CommissionStatus
  pub lock_expires_at : ℕ

-- The increments of a link's counters, in cents that may be split.
pub record LinkIncrement : Type 0 where
  pub tracking_link_id : ℕ
  pub revenue_increment : Ratio

pub data SubscriptionStatus : Type 0 where
  active cancelled completed : SubscriptionStatus

pub record Subscription : Type 0 where
  pub id : ℕ
  pub campaign_id : ℕ
  pub affiliate_id : ℕ
  pub tracking_link_id : ℕ
  pub original_conversion_id : ℕ
  pub external_reference : Text
  pub customer_email_hash : Option ℕ
  pub commission_snapshot : CommissionStructure
  pub total_periods : ℕ
  pub completed_periods : ℕ
  pub status : SubscriptionStatus
  pub cancelled_at : Option ℕ

pub data Rule : Type 0 where
  low_latency cookie_ip_concentration duplicate_cookie : Rule

pub record Signal : Type 0 where
  pub rule : Rule
  pub score : ℕ

pub data FraudDecision : Type 0 where
  pending flagged : FraudDecision

pub record FraudReview : Type 0 where
  pub id : ℕ
  pub conversion_id : ℕ
  pub risk_score : ℕ
  pub signals : List Signal
  pub decision : FraudDecision

-- `next_id` stands for the database's id generator.
pub record Sales : Type 0 where
  pub campaigns : List CampaignTerms
  pub clicks : List ClickEvent
  pub relationships : List BrandAffiliate
  pub sales : List Sale
  pub commissions : List SaleCommission
  pub link_increments : List LinkIncrement
  pub subscriptions : List Subscription
  pub fraud_reviews : List FraudReview
  pub next_id : ℕ

pub data SaleError : Type 0 where
  campaign_not_found not_accepting order_exists no_clicks tiers_missing unique_order
        subscription_not_found period_recorded :
      SaleError

abbrev pub day_ms : ℕ
day_ms = 86400 * 1000

abbrev pub colon : ℕ
colon = 58

-- The unique index on the campaign and the order id.
abbrev pub is_order : ℕ → Text → Sale → Bool
is_order campaign order v = v.campaign_id == campaign && same_text v.external_order_id order

abbrev pub text_starts_with : Text → Text → Bool
text_starts_with text [] = true
text_starts_with [] (p ∷ ps) = false
text_starts_with (c ∷ cs) (p ∷ ps) = c == p && text_starts_with cs ps
