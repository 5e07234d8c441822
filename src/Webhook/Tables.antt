-- ===== src/Webhook/Tables.antt =====
-- The two webhook tables (apps/api/prisma/schema.prisma): endpoints with their breaker columns, and
-- deliveries. Urls and signing secrets are not read by what is modelled.
use Prim.Native.String.{String}
use build_affiliate.Common.{ℕ, Bool, Option, List}
use build_affiliate.Breaker.{BreakerState}

pub data WebhookEventType : Type 0 where
  conversion_approved conversion_reversed payout_completed : WebhookEventType

pub data EndpointStatus : Type 0 where
  active disabled : EndpointStatus

pub data DeliveryStatus : Type 0 where
  pending delivered failed : DeliveryStatus

-- The payloads of the three events; amounts in cents.
pub record ConversionApproved : Type 0 where
  pub conversion_id : ℕ
  pub campaign_id : ℕ
  pub affiliate_id : ℕ
  pub order_id : String
  pub conversion_value : ℕ
  pub commission_amount : ℕ
  pub approved_at : Option ℕ

pub record ConversionReversed : Type 0 where
  pub conversion_id : ℕ
  pub campaign_id : ℕ
  pub affiliate_id : ℕ
  pub order_id : String
  pub is_full_refund : Bool
  pub clawback_amount : ℕ
  pub remaining_value : ℕ
  pub remaining_commission : ℕ
  pub reason : String

pub record PayoutCompleted : Type 0 where
  pub payout_id : ℕ
  pub affiliate_id : ℕ
  pub paid_at : Option ℕ
  pub commission_count : ℕ
  pub amount : ℕ

pub data WebhookPayload : Type 0 where
  of_approval : ConversionApproved → WebhookPayload
  of_reversal : ConversionReversed → WebhookPayload
  of_payout : PayoutCompleted → WebhookPayload

-- What the two text columns on failures say: the texts of the service, `Endpoint returned …` with a
-- status or none, or the error that the transport reported, of which the service keeps 500 units.
pub data DeliveryNote : Type 0 where
  undecryptable gone backlog_of_gone : DeliveryNote
  returned : Option ℕ → DeliveryNote
  reported : String → DeliveryNote

pub record WebhookEndpoint : Type 0 where
  pub id : ℕ
  pub brand_id : ℕ
  pub event_types : List WebhookEventType
  pub status : EndpointStatus
  pub disabled_reason : Option DeliveryNote
  pub breaker_state : BreakerState
  pub consecutive_failures : ℕ
  pub breaker_opened_at : Option ℕ

pub record WebhookDelivery : Type 0 where
  pub id : ℕ
  pub endpoint_id : ℕ
  pub event_type : WebhookEventType
  pub payload : WebhookPayload
  pub status : DeliveryStatus
  pub attempts : ℕ
  pub next_attempt_at : ℕ
  pub last_status_code : Option ℕ
  pub last_error : Option DeliveryNote
  pub delivered_at : Option ℕ
