-- ===== src/Sale/Report.antt =====
-- `report` of apps/api/src/services/conversion.service.ts: a brand's report of a sale, its checks, its
-- clicks, the transaction over the shares (Share) and what follows it.
use build_affiliate.Common.{
  ℕ, ◌-◌, ◌*◌, Bool, true, false, ◌&&◌, ◌||◌, not, Option, none, some, List, [], ◌∷◌, ◌++◌, ◌==◌,
  leb, any, find, filter, map, length,
}
use build_affiliate.Common.Result.{Result, ok, ◌>>=◌, ◌>>◌, guard, or_throw}
use build_affiliate.Common.Sorting.{sort_by}
use build_affiliate.Csv.{Text}
use build_affiliate.Breaker.{or_else}
use build_affiliate.Idempotency.Plugin.{same_text}
use build_affiliate.Lifecycle.Campaign.{accepts_conversions}
use build_affiliate.Money.Attribution.{AttributionClick, attribute}
use build_affiliate.Sale.Tables.{
  CampaignTerms, ClickEvent, Sale, Sales, SaleError, campaign_not_found, not_accepting,
  order_exists, no_clicks, day_ms, colon, text_starts_with,
}
use build_affiliate.Sale.Share.{Surroundings, ReportInput, Created, email_hash, create_shares}
use build_affiliate.Sale.Fraud.{evaluate}
use build_affiliate.Sale.Subscription.{start_if_recurring}

-- `OR: [{ externalOrderId }, { externalOrderId: { startsWith } }]`.
abbrev pub is_duplicate : ℕ → Text → Sale → Bool
is_duplicate campaign order v =
    v.campaign_id == campaign
    && (same_text v.external_order_id order
        || text_starts_with v.external_order_id (order ++ (colon ∷ [])))

abbrev pub is_attributable : ℕ → ℕ → ℕ → ℕ → ClickEvent → Bool
is_attributable campaign cookie from to c =
    c.attribution_cookie_id == cookie
    && (leb from c.timestamp && (leb c.timestamp to && (c.campaign_id == campaign && c.is_counted)))

unfoldable pub clicks_for : CampaignTerms → Option ℕ → ℕ → Sales → List ClickEvent
clicks_for terms none occurred_at s = []
clicks_for terms (some cookie) occurred_at s =
    sort_by (λ (c : ClickEvent). c.timestamp)
      (filter
        (is_attributable terms.id cookie (occurred_at - terms.attribution_window_days * day_ms)
          occurred_at)
        s.clicks)

abbrev pub to_click : ClickEvent → AttributionClick
to_click c = record {
  tracking_link_id = c.tracking_link_id;
  affiliate_id = c.affiliate_id;
  timestamp = c.timestamp;
}

unfoldable pub start_all : Surroundings → ℕ → ReportInput → List Created → Sales → Sales
start_all w campaign input [] s = s
start_all w campaign input (c ∷ cs) s = start_all w campaign input cs (
    start_if_recurring
      (record {
        campaign_id = campaign;
        affiliate_id = c.affiliate_id;
        tracking_link_id = c.tracking_link_id;
        conversion_id = c.conversion_id;
        external_reference = input.external_order_id;
        customer_email_hash = email_hash w input.customer_email;
        structure = c.structure;
      })
      s)

abbrev pub times_on : ℕ → List ClickEvent → List ℕ
times_on link clicks =
    map (λ (c : ClickEvent). c.timestamp)
      (filter (λ (c : ClickEvent). c.tracking_link_id == link) clicks)

unfoldable pub evaluate_all :
    ℕ → ReportInput → List ClickEvent → ℕ → ℕ → List Created → Sales → Sales
evaluate_all campaign input clicks occurred_at now [] s = s
evaluate_all campaign input clicks occurred_at now (c ∷ cs) s =
    evaluate_all campaign input clicks occurred_at now cs (
      evaluate
        (record {
          conversion_id = c.conversion_id;
          affiliate_id = c.affiliate_id;
          campaign_id = campaign;
          attribution_cookie_id = input.attribution_cookie_id;
          click_timestamps = times_on c.tracking_link_id clicks;
          conversion_timestamp = occurred_at;
        })
        now s)

abbrev pub is_none_found : List ClickEvent → Bool
is_none_found [] = true
is_none_found (_ ∷ _) = false

-- The transaction, and what is done after it with the records that it returns.
unfoldable pub book_sale :
    Surroundings
    → ℕ
    → CampaignTerms
    → ReportInput
    → List ClickEvent
    → ℕ
    → ℕ
    → Sales
    → Result SaleError (Sales × List Created)
book_sale w campaign terms input clicks occurred_at now s = do
  let shares = attribute terms.attribution_model (map to_click clicks)
  made ← create_shares w terms input clicks (length shares) occurred_at now shares s
  ok (
    evaluate_all campaign input clicks occurred_at now made.1
        (start_all w campaign input made.1 made.0),
    made.1,
  )

unfoldable pub report :
    Surroundings → ℕ → ReportInput → ℕ → Sales → Result SaleError (Sales × List Created)
report w campaign input now s = do
  terms ← or_throw (find (λ (c : CampaignTerms). c.id == campaign) s.campaigns) campaign_not_found
  guard (accepts_conversions terms.status) not_accepting
  guard (not (any (is_duplicate campaign input.external_order_id) s.sales)) order_exists
  let occurred_at = or_else input.occurred_at now
  let clicks = clicks_for terms input.attribution_cookie_id occurred_at s
  guard (not (is_none_found clicks)) no_clicks
  book_sale w campaign terms input clicks occurred_at now s
