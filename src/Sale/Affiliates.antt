-- ===== src/Sale/Affiliates.antt =====
-- A report credits an affiliate once.
use build_affiliate.Common.{
  ℕ, ◌≤◌, ◌≡◌, refl, sym, ◌∙◌, true, ◌&&◌, List, [], ◌∷◌, ◌==◌, any, count, length, arith,
  Bool-cases, inl, inr, ==_iff,
}
use build_affiliate.Common.Result.{ok, ok-injective}
use build_affiliate.Csv.{Text}
use build_affiliate.Breaker.{or_else}
use build_affiliate.Idempotency.Plugin.{same_text}
use build_affiliate.Idempotency.Answers.{same_text_refl}
use build_affiliate.Money.Attribution.{AttributionShare}
use build_affiliate.Sale.Tables.{CampaignTerms, ClickEvent, Sales, is_order}
use build_affiliate.Sale.Share.{
  Surroundings, ReportInput, Created, share_order, write_share, share_sale, create_shares,
}
use build_affiliate.Sale.Report.{report}
use build_affiliate.Sale.Booked.{shares_parts, share_parts, order_of}
use build_affiliate.Sale.Effects.{any-append}
use build_affiliate.Sale.Reported.{reported}

-- An order id that is taken on the campaign creates no further share of the affiliate it is of.
taken_refused :
    (w : Surroundings) (terms : CampaignTerms) (input : ReportInput) (clicks : List ClickEvent)
    (shares occurred_at now affiliate : ℕ) (xs : List AttributionShare) (s : Sales) {t : Sales}
    {cs : List Created}
    → any (is_order terms.id (share_order w input.external_order_id shares affiliate)) s.sales
      ≡ true
    → create_shares w terms input clicks shares occurred_at now xs s ≡ ok (t, cs)
    → count (λ (c : Created). c.affiliate_id == affiliate) cs ≡ 0
unfolding create_shares write_share
taken_refused w terms input clicks shares occurred_at now affiliate [] s {t} {cs} taken done =
    let pair = ok-injective done in
    λ i. count (λ (c : Created). c.affiliate_id == affiliate) (sym pair i).1
taken_refused w terms input clicks shares occurred_at now affiliate (x ∷ xs) s {t} {cs} taken done =
    let (made, others, first, second, split_) =
      shares_parts w terms input clicks shares occurred_at now x xs s done in
    let (amount, free, written, of_) =
      share_parts w terms input clicks shares occurred_at now x s first in
    let later =
      taken_refused w terms input clicks shares occurred_at now affiliate xs made.0
        (rw written (
          any-append _
            (share_sale w terms input clicks
                (order_of w terms input clicks shares occurred_at now x) amount occurred_at now x
                s.next_id
              ∷ [])
            s.sales taken))
        second in
    elim (Bool-cases (made.1.affiliate_id == affiliate)) [
      | inl mine_ ↦
          let same : x.affiliate_id ≡ affiliate =
            sym of_ ∙ (==_iff made.1.affiliate_id affiliate).0 mine_ in
          let free' = rw same at free in absurd (cc)
      | inr other_ ↦ rw (split_, other_) later
    ]

each_once :
    (w : Surroundings) (terms : CampaignTerms) (input : ReportInput) (clicks : List ClickEvent)
    (shares occurred_at now affiliate : ℕ) (xs : List AttributionShare) (s : Sales) {t : Sales}
    {cs : List Created}
    → create_shares w terms input clicks shares occurred_at now xs s ≡ ok (t, cs)
    → count (λ (c : Created). c.affiliate_id == affiliate) cs ≤ 1
unfolding create_shares write_share
each_once w terms input clicks shares occurred_at now affiliate [] s {t} {cs} done =
    let pair = ok-injective done in
    let none_ : count (λ (c : Created). c.affiliate_id == affiliate) cs ≡ 0 =
      λ i. count (λ (c : Created). c.affiliate_id == affiliate) (sym pair i).1 in
    omega (arith, none_)
each_once w terms input clicks shares occurred_at now affiliate (x ∷ xs) s {t} {cs} done =
    let (made, others, first, second, split_) =
      shares_parts w terms input clicks shares occurred_at now x xs s done in
    let (amount, free, written, of_) =
      share_parts w terms input clicks shares occurred_at now x s first in
    elim (Bool-cases (made.1.affiliate_id == affiliate)) [
      | inl mine_ ↦
          let same : x.affiliate_id ≡ affiliate =
            sym of_ ∙ (==_iff made.1.affiliate_id affiliate).0 mine_ in
          let none_left =
            taken_refused w terms input clicks shares occurred_at now affiliate xs made.0
              (rw (written, same, order_is (share_order w input.external_order_id shares affiliate))
                refl)
              second in
          rw (split_, mine_) (omega (arith, none_left))
      | inr other_ ↦
          rw (split_, other_)
            (each_once w terms input clicks shares occurred_at now affiliate xs made.0 second)
    ]
  where
    order_is : (order : Text) → (terms.id == terms.id && same_text order order) ≡ true
    order_is order = rw (same_text_refl order) (ground arith)

-- A report that succeeds creates at most one conversion for an affiliate: where the attribution gives
-- two shares to one affiliate, the second one's order id is the first one's, and the report
-- fails.
pub one_conversion_per_affiliate :
    (w : Surroundings) (campaign : ℕ) (input : ReportInput) (now : ℕ) (s : Sales) (affiliate : ℕ)
    {t : Sales} {cs : List Created}
    → report w campaign input now s ≡ ok (t, cs)
    → count (λ (c : Created). c.affiliate_id == affiliate) cs ≤ 1
one_conversion_per_affiliate w campaign input now s affiliate done =
    let r = reported w campaign input now s done in
    each_once w r.terms input r.clicks (length r.shares) (or_else input.occurred_at now) now
      affiliate r.shares s r.created
