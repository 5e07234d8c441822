-- ===== src/Sale/Examples.antt =====
-- The theorems on sales at one campaign: an affiliate's link, a click and an order of 100.00 at 10%.
use build_affiliate.Common.{
  ◌+◌, ◌≤◌, ◌<◌, ◌≡◌, refl, true, max, none, some, List, [], ◌∷◌, count, length, ◌==◌,
}
use build_affiliate.Common.Ratio.{whole}
use build_affiliate.Common.Result.{Result, ok, err}
use build_affiliate.Common.Sorting.{sort_by}
use build_affiliate.Csv.{Text}
use build_affiliate.Lifecycle.Campaign.{CampaignStatus, accepts_conversions}
use build_affiliate.Money.Attribution.{linear, attribute}
use build_affiliate.Money.Commission.{
  percentage_of, recurring, calculate_commission, resolve_commission_structure,
}
use build_affiliate.Sale.Tables.{
  CampaignTerms, ClickEvent, Sales, Subscription, SubscriptionStatus, SaleError,
}
use build_affiliate.Sale.Fraud.{ConversionContext}
use build_affiliate.Sale.Subscription.{RecurringBillingInput}
use build_affiliate.Sale.Share.{
  Surroundings, ReportInput, Created, create_shares, create_share, structure_for, write_share,
}
use build_affiliate.Sale.Report.{report, clicks_for, book_sale, start_all, evaluate_all}
use build_affiliate.Sale.Booked.{Entries}
use build_affiliate.Sale.Orders.{report_books}
use build_affiliate.Sale.Affiliates.{one_conversion_per_affiliate}
use build_affiliate.Sale.Periods.{run_billing, periods_bounded}

abbrev shop : CampaignTerms
shop = record {
  id = 1;
  brand_id = 2;
  status = CampaignStatus.active;
  structure = percentage_of (whole 10) none none;
  attribution_model = linear;
  attribution_window_days = 30;
  lock_period_days = 30;
}

abbrev visit : ClickEvent
visit = record {
  id = 5;
  tracking_link_id = 6;
  affiliate_id = 7;
  campaign_id = 1;
  timestamp = 1000;
  ip_hash = 8;
  attribution_cookie_id = 9;
  sub_ids = none;
  is_counted = true;
}

abbrev order_a : Text
order_a = 65 ∷ []

abbrev yearly : Subscription
yearly = record {
  id = 11;
  campaign_id = 1;
  affiliate_id = 7;
  tracking_link_id = 6;
  original_conversion_id = 10;
  external_reference = order_a;
  customer_email_hash = none;
  commission_snapshot = recurring (whole 30) 2;
  total_periods = 2;
  completed_periods = 1;
  status = SubscriptionStatus.active;
  cancelled_at = none;
}

abbrev market : Sales
market = record {
  campaigns = shop ∷ [];
  clicks = visit ∷ [];
  relationships = [];
  sales = [];
  commissions = [];
  link_increments = [];
  subscriptions = yearly ∷ [];
  fraud_reviews = [];
  next_id = 20;
}

abbrev outside : Surroundings
outside = record {
  id_text = λ id. 66 ∷ [];
  hash_email = λ email. email;
  parse_structure = λ json. none;
}

abbrev purchase : ReportInput
purchase = record {
  external_order_id = order_a;
  conversion_value = whole 10000;
  attribution_cookie_id = some 9;
  customer_email = none;
  is_first_time_customer = true;
  occurred_at = some 2000;
}

abbrev answer_of : Result SaleError (Sales × List Created) → Sales × List Created
answer_of (ok r) = r
answer_of (err e) = (market, [])

abbrev sold : Sales × List Created
sold = answer_of (report outside 1 purchase 3000 market)

is_sold : report outside 1 purchase 3000 market ≡ ok (sold.0, sold.1)
unfolding report accepts_conversions clicks_for book_sale create_shares create_share structure_for
    write_share start_all evaluate_all calculate_commission resolve_commission_structure attribute
    sort_by
is_sold = refl

report_books_example : Entries 1 (length sold.1) market sold.0 × (0 < length sold.1)
report_books_example = report_books outside 1 purchase 3000 market is_sold

one_conversion_per_affiliate_example : count (λ (c : Created). c.affiliate_id == 7) sold.1 ≤ 1
one_conversion_per_affiliate_example =
    one_conversion_per_affiliate outside 1 purchase 3000 market 7 is_sold

abbrev context : ConversionContext
context = record {
  conversion_id = 20;
  affiliate_id = 7;
  campaign_id = 1;
  attribution_cookie_id = some 9;
  click_timestamps = 1000 ∷ [];
  conversion_timestamp = 2000;
}

abbrev renewal_due : RecurringBillingInput
renewal_due = record { external_reference = order_a; amount = whole 5000; occurred_at = none }

periods_bounded_example :
    (1 + (run_billing 1 ((renewal_due, 5000) ∷ (renewal_due, 6000) ∷ []) market).1 ≤ max 1 2)
    × (length (run_billing 1 ((renewal_due, 5000) ∷ (renewal_due, 6000) ∷ []) market).0.commissions
        ≡ 0 + (run_billing 1 ((renewal_due, 5000) ∷ (renewal_due, 6000) ∷ []) market).1)
    × (length (run_billing 1 ((renewal_due, 5000) ∷ (renewal_due, 6000) ∷ []) market).0.sales
        ≡ 0 + (run_billing 1 ((renewal_due, 5000) ∷ (renewal_due, 6000) ∷ []) market).1)
periods_bounded_example =
    periods_bounded 1 order_a ((renewal_due, 5000) ∷ (renewal_due, 6000) ∷ []) market yearly
      (refl, (refl, tt)) refl
