-- ===== src/Sale/Reported.antt =====
-- What a report that succeeds went through.
use build_affiliate.Common.{
  ℕ, ◌<◌, ◌≡◌, sym, ◌∙◌, true, false, not, some, List, [], ◌∷◌, ◌==◌, any, find, map, length, arith,
  Bool-cases, Option-cases, inl, inr,
}
use build_affiliate.Common.Result.{ok, >>=-eq-ok, ok-injective, ◌>>◌, guard}
use build_affiliate.Breaker.{or_else}
use build_affiliate.Lifecycle.Campaign.{accepts_conversions}
use build_affiliate.Money.Attribution.{AttributionShare, attribute}
use build_affiliate.Sale.Tables.{CampaignTerms, ClickEvent, Sales, no_clicks}
use build_affiliate.Sale.Share.{Surroundings, ReportInput, Created, create_shares}
use build_affiliate.Sale.Report.{
  is_duplicate, to_click, clicks_for, is_none_found, start_all, evaluate_all, book_sale, report,
}
use build_affiliate.Sale.Effects.{attribute_some}

-- A report that succeeds: the campaign, its clicks, and the shares that were created.
pub record IsReported (w : Surroundings) (campaign : ℕ) (input : ReportInput) (now : ℕ)
    (s t : Sales) (cs : List Created) : Type 0 where
  pub terms : CampaignTerms
  pub clicks : List ClickEvent
  pub shares : List AttributionShare
  pub shared : Sales
  pub known : find (λ (c : CampaignTerms). c.id == campaign) s.campaigns ≡ some terms
  pub accepting : accepts_conversions terms.status ≡ true
  pub has_share : 0 < length shares
  pub created :
      create_shares w terms input clicks
        (length shares)
        (or_else input.occurred_at now)
        now
        shares
        s
      ≡ ok (shared, cs)
  pub finished :
      t
      ≡ evaluate_all campaign input clicks
          (or_else input.occurred_at now)
          now
          cs
          (start_all w campaign input cs shared)

click_found :
    (clicks : List ClickEvent) → is_none_found clicks ≡ false → 0 < length (map to_click clicks)
click_found [] h = cc
click_found (c ∷ cs) h = omega arith

module _ (w : Surroundings) (campaign : ℕ) (input : ReportInput) (now : ℕ) (s : Sales) where
  abbrev occurred : ℕ
  occurred = or_else input.occurred_at now

  abbrev clicks_of : CampaignTerms → List ClickEvent
  clicks_of terms = clicks_for terms input.attribution_cookie_id occurred s

  module _ {t : Sales} {cs : List Created} where
    book_parts :
        (terms : CampaignTerms) (clicks : List ClickEvent)
        → book_sale w campaign terms input clicks occurred now s ≡ ok (t, cs)
        → (shared : Sales) × (create_shares w terms input clicks
              (length (attribute terms.attribution_model (map to_click clicks)))
              occurred
              now
              (attribute terms.attribution_model (map to_click clicks))
              s
            ≡ ok (shared, cs))
          × (t
              ≡ evaluate_all campaign input clicks occurred now cs
                  (start_all w campaign input cs shared))
    unfolding book_sale
    book_parts terms clicks done =
        let (made, first, last) =
          >>=-eq-ok
            (create_shares w terms input clicks
              (length (attribute terms.attribution_model (map to_click clicks))) occurred now
              (attribute terms.attribution_model (map to_click clicks)) s)
            (λ m. ok (
              evaluate_all campaign input clicks occurred now m.1
                  (start_all w campaign input m.1 m.0),
              m.1,
            ))
            done in
        let pair = ok-injective last in
        let same : made.1 ≡ cs = λ i. (pair i).1 in
        (
          made.0,
          first ∙ (λ i. ok (made.0, same i)),
          (λ i. (sym pair i).0) ∙ λ i.
              evaluate_all campaign input clicks occurred now (same i)
                (start_all w campaign input (same i) made.0),
        )

    pub reported :
        report w campaign input now s ≡ ok (t, cs) → IsReported w campaign input now s t cs
    unfolding report
    reported done =
        elim (Option-cases (find (λ (c : CampaignTerms). c.id == campaign) s.campaigns)) [
          | inl none_ ↦ let no_ = rw (report, none_) at done in absurd (cc)
          | inr (terms, known_) ↦ elim (Bool-cases (accepts_conversions terms.status)) [
            | inr ended_ ↦ let no_ = rw (report, known_, ended_) at done in absurd (cc)
            | inl open_ ↦
                elim (Bool-cases (any (is_duplicate campaign input.external_order_id) s.sales)) [
                  | inl there_ ↦ let no_ = rw (report, known_, open_, there_) at done in absurd (cc)
                  | inr new_ ↦ clicked terms known_ open_ (rw (report, known_, open_, new_) at done)
                ]
          ]
        ]
      where
        clicked :
            (terms : CampaignTerms)
            → find (λ (c : CampaignTerms). c.id == campaign) s.campaigns ≡ some terms
            → accepts_conversions terms.status ≡ true
            → (guard (not (is_none_found (clicks_of terms))) no_clicks
                >> book_sale w campaign terms input (clicks_of terms) occurred now s)
              ≡ ok (t, cs)
            → IsReported w campaign input now s t cs
        clicked terms known_ open_ rest = elim (Bool-cases (is_none_found (clicks_of terms))) [
          | inl none_ ↦ let no_ = rw none_ at rest in absurd (cc)
          | inr some_ ↦
              let (made, first, last) = book_parts terms (clicks_of terms) (rw some_ at rest) in
              record {
                terms = terms;
                clicks = clicks_of terms;
                shares = attribute terms.attribution_model (map to_click (clicks_of terms));
                shared = made;
                known = known_;
                accepting = open_;
                has_share =
                    attribute_some terms.attribution_model (map to_click (clicks_of terms))
                      (click_found (clicks_of terms) some_);
                created = first;
                finished = last;
              }
        ]
