-- ===== src/Sale/Fraud.antt =====
-- `fraudService` of apps/api/src/services/fraud.service.ts: the three rules, their total and the review
-- that a sale with a signal gets.
use build_affiliate.Common.{
  ℕ, suc, ◌-◌, ◌*◌, ◌≤◌, ◌≡◌, Bool, true, false, ◌&&◌, ◌||◌, not, Option, none, some, List, [], ◌∷◌,
  ◌++◌, ◌==◌, ltb, leb, max, min, filter, count, any, length, sum_of, if◌then◌else◌,
}
use build_affiliate.Sale.Tables.{
  ClickEvent, Sale, Rule, low_latency, cookie_ip_concentration, duplicate_cookie, Signal, pending,
  flagged, FraudReview, Sales,
}

pub record ConversionContext : Type 0 where
  pub conversion_id : ℕ
  pub affiliate_id : ℕ
  pub campaign_id : ℕ
  pub attribution_cookie_id : Option ℕ
  pub click_timestamps : List ℕ
  pub conversion_timestamp : ℕ

abbrev pub high_risk_threshold : ℕ
high_risk_threshold = 60

abbrev pub latest : List ℕ → ℕ
latest [] = 0
latest (t ∷ ts) = max t (latest ts)

abbrev pub latency_signal : ℕ → List Signal
latency_signal latency =
    if ltb latency 5000
    then record { rule = low_latency; score = 40 } ∷ []
    else if ltb latency 60000
    then record { rule = low_latency; score = 20 } ∷ []
    else []

-- Rule 1. A latency below zero is below five seconds, like the zero that it is here.
unfoldable pub latency_rule : List ℕ → ℕ → List Signal
latency_rule [] sold_at = []
latency_rule (t ∷ ts) sold_at = latency_signal (sold_at - latest (t ∷ ts))

abbrev pub is_recent_click : ConversionContext → ℕ → ℕ → ClickEvent → Bool
is_recent_click ctx cookie now c =
    c.attribution_cookie_id == cookie
    && (c.affiliate_id == ctx.affiliate_id
        && (c.campaign_id == ctx.campaign_id
            && (c.is_counted && leb (now - 24 * 3600 * 1000) c.timestamp)))

-- `COUNT(DISTINCT ce."ipHash")`.
unfoldable pub distinct_ips : List ClickEvent → ℕ
distinct_ips [] = 0
distinct_ips (c ∷ cs) =
    let rest = distinct_ips cs in
    if any (λ (d : ClickEvent). d.ip_hash == c.ip_hash) cs then rest else suc rest

-- Rule 2.
unfoldable pub concentration_rule : ConversionContext → ℕ → ℕ → Sales → List Signal
concentration_rule ctx cookie now s =
    let rows = filter (is_recent_click ctx cookie now) s.clicks in
    if ltb 5 (length rows) && leb (distinct_ips rows) 1
    then record { rule = cookie_ip_concentration; score = 30 } ∷ []
    else []

-- `clickEvent: { attributionCookieId }`, false where the sale has no click.
abbrev pub came_from : ℕ → Option ℕ → List ClickEvent → Bool
came_from cookie none clicks = false
came_from cookie (some click) clicks =
    any (λ (c : ClickEvent). c.id == click && c.attribution_cookie_id == cookie) clicks

abbrev pub is_same_cookie : ConversionContext → ℕ → ℕ → List ClickEvent → Sale → Bool
is_same_cookie ctx cookie now clicks v =
    v.campaign_id == ctx.campaign_id
    && (leb (now - 24 * 3600 * 1000) v.created_at
        && (came_from cookie v.click_event_id clicks && not (v.id == ctx.conversion_id)))

-- Rule 3.
unfoldable pub duplicate_rule : ConversionContext → ℕ → ℕ → Sales → List Signal
duplicate_rule ctx cookie now s =
    if ltb 0 (count (is_same_cookie ctx cookie now s.clicks) s.sales)
    then record { rule = duplicate_cookie; score = 30 } ∷ []
    else []

-- The rules on a cookie, where there is one.
abbrev pub cookie_rules : ConversionContext → Option ℕ → ℕ → Sales → List Signal
cookie_rules ctx none now s = []
cookie_rules ctx (some cookie) now s =
    concentration_rule ctx cookie now s ++ duplicate_rule ctx cookie now s

unfoldable pub fraud_signals : ConversionContext → ℕ → Sales → List Signal
fraud_signals ctx now s =
    latency_rule ctx.click_timestamps ctx.conversion_timestamp
    ++ cookie_rules ctx ctx.attribution_cookie_id now s

abbrev pub risk_total : List Signal → ℕ
risk_total signals = min 100 (sum_of (λ (x : Signal). x.score) signals)

abbrev pub review_of : ℕ → ℕ → List Signal → FraudReview
review_of id conversion signals = record {
  id = id;
  conversion_id = conversion;
  risk_score = risk_total signals;
  signals = signals;
  decision = if leb high_risk_threshold (risk_total signals) then flagged else pending;
}

abbrev pub open_review : ℕ → List Signal → Sales → Sales
open_review conversion [] s = s
open_review conversion (x ∷ xs) s = record s {
  fraud_reviews = review_of s.next_id conversion (x ∷ xs) ∷ s.fraud_reviews;
  next_id = suc s.next_id;
}

unfoldable pub evaluate : ConversionContext → ℕ → Sales → Sales
evaluate ctx now s = open_review ctx.conversion_id (fraud_signals ctx now s) s

abbrev pub has_rule : Rule → List Signal → Bool
has_rule low_latency xs = any (λ (x : Signal). elim x.rule [ low_latency ↦ true | _ ↦ false ]) xs
has_rule cookie_ip_concentration xs =
    any (λ (x : Signal). elim x.rule [ cookie_ip_concentration ↦ true | _ ↦ false ]) xs
has_rule duplicate_cookie xs =
    any (λ (x : Signal). elim x.rule [ duplicate_cookie ↦ true | _ ↦ false ]) xs

-- The last click came less than five seconds before the sale.
abbrev pub is_instant : List ℕ → ℕ → Bool
is_instant [] sold_at = false
is_instant (t ∷ ts) sold_at = ltb (sold_at - latest (t ∷ ts)) 5000

-- What the total says of the signals, where the last click was or was not an instant before.
abbrev pub IsJudged : List Signal → Bool → Type 0
IsJudged signals instant =
    (leb high_risk_threshold (risk_total signals) ≡ (
      has_rule cookie_ip_concentration signals && has_rule duplicate_cookie signals
      || (instant
          && (has_rule cookie_ip_concentration signals || has_rule duplicate_cookie signals))))
    × (risk_total signals ≤ 100)

abbrev signal : Rule → ℕ → List Signal
signal rule score = record { rule = rule; score = score } ∷ []

data FromLatency : List Signal → Bool → Type 0 where
  instant : FromLatency (signal low_latency 40) true
  quick : FromLatency (signal low_latency 20) false
  slow : FromLatency [] false

data FromCookie (rule : Rule) : List Signal → Type 0 where
  fires : FromCookie rule (signal rule 30)
  quiet : FromCookie rule []
