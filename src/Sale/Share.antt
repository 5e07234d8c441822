-- ===== src/Sale/Share.antt =====
-- The loop of `report` of apps/api/src/services/conversion.service.ts over the shares of the
-- attribution: one conversion and one locked commission each. The text of an affiliate's id, the hash of
-- an e-mail address and the schema of an override are a parameter.
use build_affiliate.Common.{
  ℕ, suc, ◌+◌, ◌*◌, Bool, ◌&&◌, not, Option, none, some, List, [], ◌∷◌, ◌++◌, ◌==◌, ltb, any, find,
  count, if◌then◌else◌,
}
use build_affiliate.Common.Ratio.{Ratio, round_ratio}
use build_affiliate.Common.Result.{Result, ok, ◌>>=◌, ◌>>◌, guard, or_throw}
use build_affiliate.Csv.{Text}
use build_affiliate.Idempotency.Fingerprint.{Json}
use build_affiliate.Ledger.Tables.{ConversionStatus, locked}
use build_affiliate.Ledger.Rows.{same_conversion_status}
use build_affiliate.Money.Attribution.{AttributionShare}
use build_affiliate.Money.Commission.{
  CommissionStructure, RelationshipLike, resolve_commission_structure, calculate_commission,
}
use build_affiliate.Sale.Tables.{
  CampaignTerms, ClickEvent, BrandAffiliate, Sale, SaleCommission, Sales, SaleError, tiers_missing,
  unique_order, day_ms, colon, is_order,
}

pub record Surroundings : Type 0 where
  pub id_text : ℕ → Text
  pub hash_email : ℕ → ℕ
  pub parse_structure : Json → Option CommissionStructure

pub record ReportInput : Type 0 where
  pub external_order_id : Text
  pub conversion_value : Ratio  -- in cents
  pub attribution_cookie_id : Option ℕ
  pub customer_email : Option ℕ
  pub is_first_time_customer : Bool
  pub occurred_at : Option ℕ

-- One record of the response.
pub record Created : Type 0 where
  pub conversion_id : ℕ
  pub commission_id : ℕ
  pub affiliate_id : ℕ
  pub tracking_link_id : ℕ
  pub structure : CommissionStructure

-- `Number(input.conversionValue) * share.share`.
abbrev pub split_value : Ratio → Ratio → Ratio
split_value value share = record { num = value.num * share.num; den = value.den * share.den }

abbrev pub prior_sales : ℕ → ℕ → List Sale → ℕ
prior_sales affiliate campaign sales =
    count
      (λ v.
        v.affiliate_id == affiliate
        && (v.campaign_id == campaign && same_conversion_status v.status ConversionStatus.approved))
      sales

abbrev pub relation_terms : Option BrandAffiliate → Option (RelationshipLike Json)
relation_terms none = none
relation_terms (some r) = some r.terms

unfoldable pub structure_for : Surroundings → CampaignTerms → ℕ → Sales → CommissionStructure
structure_for w terms affiliate s =
    (resolve_commission_structure terms.structure
      (relation_terms (
        find (λ (r : BrandAffiliate). r.brand_id == terms.brand_id && r.affiliate_id == affiliate)
          s.relationships))
      w.parse_structure).0

-- The suffix that tells the shares of one order apart.
abbrev pub share_order : Surroundings → Text → ℕ → ℕ → Text
share_order w order shares affiliate =
    if ltb 1 shares then order ++ (colon ∷ w.id_text affiliate) else order

abbrev pub click_id : Option ClickEvent → Option ℕ
click_id none = none
click_id (some c) = some c.id

abbrev pub click_sub_ids : Option ClickEvent → Option Json
click_sub_ids none = none
click_sub_ids (some c) = c.sub_ids

abbrev pub email_hash : Surroundings → Option ℕ → Option ℕ
email_hash w none = none
email_hash w (some email) = some (w.hash_email email)

-- The conversion of a share.
abbrev pub share_sale :
    Surroundings
    → CampaignTerms
    → ReportInput
    → List ClickEvent
    → Text
    → ℕ
    → ℕ
    → ℕ
    → AttributionShare
    → ℕ
    → Sale
share_sale w terms input clicks order amount occurred_at now share id =
    let click = find (λ (c : ClickEvent). c.tracking_link_id == share.tracking_link_id) clicks in
    record {
      id = id;
      tracking_link_id = share.tracking_link_id;
      campaign_id = terms.id;
      affiliate_id = share.affiliate_id;
      click_event_id = click_id click;
      sub_ids = click_sub_ids click;
      external_order_id = order;
      conversion_value = round_ratio (split_value input.conversion_value share.share);
      commission_amount = amount;
      status = ConversionStatus.pending;
      customer_email_hash = email_hash w input.customer_email;
      is_first_time_customer = input.is_first_time_customer;
      occurred_at = occurred_at;
      created_at = now;
    }

abbrev pub share_commission : CampaignTerms → ℕ → ℕ → AttributionShare → ℕ → SaleCommission
share_commission terms amount occurred_at share conversion = record {
  id = suc conversion;
  affiliate_id = share.affiliate_id;
  campaign_id = terms.id;
  conversion_id = conversion;
  amount = amount;
  status = locked;
  lock_expires_at = occurred_at + terms.lock_period_days * day_ms;
}

-- The rows of a share, under the id generator's next two ids.
unfoldable pub write_share :
    Surroundings
    → CampaignTerms
    → ReportInput
    → List ClickEvent
    → Text
    → ℕ
    → ℕ
    → ℕ
    → AttributionShare
    → Sales
    → Sales
write_share w terms input clicks order amount occurred_at now share s = record s {
  sales = share_sale w terms input clicks order amount occurred_at now share s.next_id ∷ s.sales;
  commissions = share_commission terms amount occurred_at share s.next_id ∷ s.commissions;
  link_increments =
      record {
        tracking_link_id = share.tracking_link_id;
        revenue_increment = split_value input.conversion_value share.share;
      }
      ∷ s.link_increments;
  next_id = suc (suc s.next_id);
}

-- One turn of the loop.
unfoldable pub create_share :
    Surroundings
    → CampaignTerms
    → ReportInput
    → List ClickEvent
    → ℕ
    → ℕ
    → ℕ
    → AttributionShare
    → Sales
    → Result SaleError (Sales × Created)
create_share w terms input clicks shares occurred_at now share s = do
  let structure = structure_for w terms share.affiliate_id s
  let order = share_order w input.external_order_id shares share.affiliate_id
  amount ←
      or_throw
        (calculate_commission structure (split_value input.conversion_value share.share)
          (prior_sales share.affiliate_id terms.id s.sales))
        tiers_missing
  guard (not (any (is_order terms.id order) s.sales)) unique_order
  ok (
    write_share w terms input clicks order amount occurred_at now share s,
    record {
      conversion_id = s.next_id;
      commission_id = suc s.next_id;
      affiliate_id = share.affiliate_id;
      tracking_link_id = share.tracking_link_id;
      structure = structure;
    },
  )

-- The transaction, which an error leaves without a write.
unfoldable pub create_shares :
    Surroundings
    → CampaignTerms
    → ReportInput
    → List ClickEvent
    → ℕ
    → ℕ
    → ℕ
    → List AttributionShare
    → Sales
    → Result SaleError (Sales × List Created)
create_shares w terms input clicks shares occurred_at now [] s = ok (s, [])
create_shares w terms input clicks shares occurred_at now (share ∷ rest) s = do
  made ← create_share w terms input clicks shares occurred_at now share s
  others ← create_shares w terms input clicks shares occurred_at now rest made.0
  ok (others.0, made.1 ∷ others.1)
