-- ===== src/Sale/Subscription.antt =====
-- `subscriptionService` of apps/api/src/services/subscription.service.ts: the periods of a recurring
-- commission.
use build_affiliate.Common.{
  ℕ, zero, suc, ◌+◌, ◌-◌, ◌*◌, ◌/◌, ◌%◌, Bool, true, false, ◌&&◌, ◌||◌, not, Option, none, some, [],
  ◌∷◌, ◌++◌, ◌==◌, leb, ltb, any, find, update_where, if◌then◌else◌,
}
use build_affiliate.Common.Ratio.{Ratio, round_ratio}
use build_affiliate.Common.Result.{Result, ok, ◌>>=◌, ◌>>◌, guard, or_throw}
use build_affiliate.Csv.{Text}
use build_affiliate.Breaker.{or_else}
use build_affiliate.Idempotency.Plugin.{same_text}
use build_affiliate.Ledger.Tables.{ConversionStatus, locked}
use build_affiliate.Money.Commission.{CommissionStructure, recurring, calculate_commission}
use build_affiliate.Sale.Tables.{
  CampaignTerms, Sale, SubscriptionStatus, active, cancelled, completed, Subscription, Sales,
  SaleError, campaign_not_found, tiers_missing, unique_order, subscription_not_found,
  period_recorded, day_ms, colon, is_order,
}

pub record RecurringBillingInput : Type 0 where
  pub external_reference : Text
  pub amount : Ratio  -- in cents
  pub occurred_at : Option ℕ

-- The decimal digits of a period, as code units: a number has at most as many digits as it counts.
abbrev pub digits_within : ℕ → ℕ → Text
digits_within zero n = []
digits_within (suc fuel) n =
    let high = digits_within fuel (n / 10) in
    if ltb n 10 then (48 + n) ∷ [] else high ++ ((48 + n % 10) ∷ [])

unfoldable pub digits_of : ℕ → Text
digits_of n = digits_within (suc n) n

-- `${externalReference}:m${period}`.
abbrev pub period_order : Text → ℕ → Text
period_order reference period = reference ++ (colon ∷ 109 ∷ digits_of period)

-- The unique index on the campaign and the reference.
abbrev pub is_reference : ℕ → Text → Subscription → Bool
is_reference campaign reference x =
    x.campaign_id == campaign && same_text x.external_reference reference

abbrev pub update_subscription : ℕ → (Subscription → Subscription) → Sales → Sales
update_subscription id f s = record s {
  subscriptions = update_where (λ x. x.id == id) f s.subscriptions;
}

pub record BilledPeriod : Type 0 where
  pub conversion_id : ℕ
  pub period : ℕ
  pub remaining_periods : ℕ
  pub commission_amount : ℕ

-- What a billing event is answered.
pub data Billing : Type 0 where
  skipped_cancelled skipped_term_complete : Billing
  billed : BilledPeriod → Billing

abbrev pub is_completed : SubscriptionStatus → Bool
is_completed completed = true
is_completed _ = false

abbrev pub is_cancelled : SubscriptionStatus → Bool
is_cancelled cancelled = true
is_cancelled _ = false

-- The term is over: the subscription is marked, unless it is marked already.
unfoldable pub close_term : Subscription → Sales → Sales
close_term x s =
    if is_completed x.status
    then s
    else update_subscription x.id (λ y. record y { status = completed }) s

abbrev pub renewal : Subscription → ℕ → Text → ℕ → ℕ → ℕ → ℕ → ℕ → Sale
renewal x campaign order value amount occurred_at id now = record {
  id = id;
  tracking_link_id = x.tracking_link_id;
  campaign_id = campaign;
  affiliate_id = x.affiliate_id;
  click_event_id = none;
  sub_ids = none;
  external_order_id = order;
  conversion_value = value;
  commission_amount = amount;
  status = ConversionStatus.pending;
  customer_email_hash = x.customer_email_hash;
  is_first_time_customer = false;
  occurred_at = occurred_at;
  created_at = now;
}

abbrev pub complete_period : ℕ → Subscription → Subscription → Subscription
complete_period period x y = record y {
  completed_periods = period;
  status = if leb x.total_periods period then completed else active;
}

-- The transaction: the sale, its locked commission, the counters of the link, the period.
unfoldable pub write_period :
    CampaignTerms
    → Subscription
    → RecurringBillingInput
    → ℕ
    → ℕ
    → ℕ
    → Sales
    → Result SaleError (Sales × Billing)
write_period terms x input period amount now s = do
  let order = period_order input.external_reference period
  let occurred_at = or_else input.occurred_at now
  guard (not (any (is_order terms.id order) s.sales)) unique_order
  let written : Sales = record s {
    sales =
        renewal x terms.id order (round_ratio input.amount) amount occurred_at s.next_id now
        ∷ s.sales;
    commissions =
        record {
          id = suc s.next_id;
          affiliate_id = x.affiliate_id;
          campaign_id = terms.id;
          conversion_id = s.next_id;
          amount = amount;
          status = locked;
          lock_expires_at = occurred_at + terms.lock_period_days * day_ms;
        }
        ∷ s.commissions;
    link_increments =
        record { tracking_link_id = x.tracking_link_id; revenue_increment = input.amount }
        ∷ s.link_increments;
    next_id = suc (suc s.next_id);
  }
  ok (
    update_subscription x.id (complete_period period x) written,
    billed (record {
      conversion_id = s.next_id;
      period = period;
      remaining_periods = x.total_periods - period;
      commission_amount = amount;
    }),
  )

-- A subscription that is not cancelled and has periods left.
unfoldable pub bill_period :
    CampaignTerms
    → Subscription
    → RecurringBillingInput
    → ℕ
    → Sales
    → Result SaleError (Sales × Billing)
bill_period terms x input now s = do
  let period = suc x.completed_periods
  let order = period_order input.external_reference period
  guard (not (any (is_order terms.id order) s.sales)) period_recorded
  amount ← or_throw (calculate_commission x.commission_snapshot input.amount 0) tiers_missing
  write_period terms x input period amount now s

unfoldable pub record_billing_period :
    ℕ → RecurringBillingInput → ℕ → Sales → Result SaleError (Sales × Billing)
record_billing_period campaign input now s = do
  terms ← or_throw (find (λ (c : CampaignTerms). c.id == campaign) s.campaigns) campaign_not_found
  x ←
      or_throw (find (is_reference campaign input.external_reference) s.subscriptions)
        subscription_not_found
  if is_cancelled x.status
      then ok (s, skipped_cancelled)
      else if leb x.total_periods x.completed_periods
      then ok (close_term x s, skipped_term_complete)
      else bill_period terms x input now s

-- The store, and whether the subscription had been cancelled already.
unfoldable pub cancel : ℕ → Text → ℕ → Sales → Result SaleError (Sales × Bool)
cancel campaign reference now s = do
  x ← or_throw (find (is_reference campaign reference) s.subscriptions) subscription_not_found
  ok (
      if is_cancelled x.status then (s, true) else (
        update_subscription x.id (λ y. record y { status = cancelled; cancelled_at = some now }) s,
        false,
      ))

pub record FirstSale : Type 0 where
  pub campaign_id : ℕ
  pub affiliate_id : ℕ
  pub tracking_link_id : ℕ
  pub conversion_id : ℕ
  pub external_reference : Text
  pub customer_email_hash : Option ℕ
  pub structure : CommissionStructure

abbrev pub new_subscription : FirstSale → CommissionStructure → ℕ → ℕ → Subscription
new_subscription args structure months id = record {
  id = id;
  campaign_id = args.campaign_id;
  affiliate_id = args.affiliate_id;
  tracking_link_id = args.tracking_link_id;
  original_conversion_id = args.conversion_id;
  external_reference = args.external_reference;
  customer_email_hash = args.customer_email_hash;
  commission_snapshot = structure;
  total_periods = months;
  completed_periods = 1;
  status = if leb months 1 then completed else active;
  cancelled_at = none;
}

-- The two unique indices of the table.
abbrev pub clashes : FirstSale → Subscription → Bool
clashes args x =
    is_reference args.campaign_id args.external_reference x
    || x.original_conversion_id == args.conversion_id

-- A creation that fails is logged, and nothing is written.
unfoldable pub start_if_recurring : FirstSale → Sales → Sales
start_if_recurring args s = elim args.structure [
  | recurring percentage months ↦ if any (clashes args) s.subscriptions then s else record s {
    subscriptions =
        new_subscription args (recurring percentage months) months s.next_id ∷ s.subscriptions;
    next_id = suc s.next_id;
  }
  | _ ↦ s
]
