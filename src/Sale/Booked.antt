-- ===== src/Sale/Booked.antt =====
-- What a report leaves in the books.
use build_affiliate.Common.{
  ℕ, suc, ◌+◌, ◌≡◌, refl, sym, ap, ◌∙◌, false, Option, List, [], ◌∷◌, ◌++◌, any, length, arith,
  Bool-cases, Option-cases, inl, inr, append_assoc, length-append,
}
use build_affiliate.Common.Result.{ok, ◌>>=◌, >>=-eq-ok, ok-injective}
use build_affiliate.Csv.{Text}
use build_affiliate.Ledger.Tables.{ConversionStatus, locked}
use build_affiliate.Money.Attribution.{AttributionShare}
use build_affiliate.Money.Commission.{calculate_commission}
use build_affiliate.Sale.Tables.{CampaignTerms, ClickEvent, Sale, SaleCommission, Sales, is_order}
use build_affiliate.Sale.Share.{
  Surroundings, ReportInput, Created, split_value, prior_sales, structure_for, share_order,
  write_share, create_share, create_shares,
}

-- Each sale is pending and has one locked commission, of the same affiliate and amount.
abbrev pub IsBooked : ℕ → List Sale → List SaleCommission → Type 0
IsBooked campaign [] [] = Unit
IsBooked campaign (v ∷ vs) (k ∷ ks) =
    (k.conversion_id ≡ v.id)
    × (k.amount ≡ v.commission_amount)
    × (k.affiliate_id ≡ v.affiliate_id)
    × (v.campaign_id ≡ campaign)
    × (k.campaign_id ≡ campaign)
    × (v.status ≡ ConversionStatus.pending)
    × (k.status ≡ locked)
    × IsBooked campaign vs ks
IsBooked campaign _ _ = ⊥

IsBooked-append :
    (campaign : ℕ) (vs us : List Sale) (ks ls : List SaleCommission)
    → IsBooked campaign vs ks
    → IsBooked campaign us ls
    → IsBooked campaign (vs ++ us) (ks ++ ls)
IsBooked-append campaign [] us [] ls h k = k
IsBooked-append campaign [] us (l ∷ ks) ls h k = absurd h
IsBooked-append campaign (v ∷ vs) us [] ls h k = absurd h
IsBooked-append campaign (v ∷ vs) us (l ∷ ks) ls (a, b, c, d, e, f, g, h) k =
    (a, b, c, d, e, f, g, IsBooked-append campaign vs us ks ls h k)

-- What a call adds to the books.
pub record Entries (campaign added : ℕ) (s t : Sales) : Type 0 where
  pub new_sales : List Sale
  pub new_commissions : List SaleCommission
  pub sales_grow : t.sales ≡ new_sales ++ s.sales
  pub commissions_grow : t.commissions ≡ new_commissions ++ s.commissions
  pub campaigns_stay : t.campaigns ≡ s.campaigns
  pub booked : IsBooked campaign new_sales new_commissions
  pub entries_counted : length new_sales ≡ added

pub then-Entries :
    {campaign a b : ℕ} {s m t : Sales}
    → Entries campaign a s m
    → Entries campaign b m t
    → Entries campaign (b + a) s t
then-Entries {campaign} e f = record {
  new_sales = f.new_sales ++ e.new_sales;
  new_commissions = f.new_commissions ++ e.new_commissions;
  sales_grow =
      f.sales_grow
      ∙ ap (λ vs. f.new_sales ++ vs) e.sales_grow
      ∙ sym (append_assoc f.new_sales e.new_sales _);
  commissions_grow =
      f.commissions_grow
      ∙ ap (λ ks. f.new_commissions ++ ks) e.commissions_grow
      ∙ sym (append_assoc f.new_commissions e.new_commissions _);
  campaigns_stay = f.campaigns_stay ∙ e.campaigns_stay;
  booked =
      IsBooked-append campaign f.new_sales e.new_sales f.new_commissions e.new_commissions f.booked
        e.booked;
  entries_counted =
      length-append f.new_sales e.new_sales ∙ λ i. f.entries_counted i + e.entries_counted i;
}

module _ (w : Surroundings) (terms : CampaignTerms) (input : ReportInput) (clicks : List ClickEvent)
    (shares occurred_at now : ℕ) where
  abbrev pub order_of : AttributionShare → Text
  order_of share = share_order w input.external_order_id shares share.affiliate_id

  abbrev priced : AttributionShare → Sales → Option ℕ
  priced share s =
      calculate_commission (structure_for w terms share.affiliate_id s)
        (split_value input.conversion_value share.share)
        (prior_sales share.affiliate_id terms.id s.sales)

  -- A share that is created: its amount, and that its order id was free.
  pub share_parts :
      (share : AttributionShare) (s : Sales) {t : Sales} {c : Created}
      → create_share w terms input clicks shares occurred_at now share s ≡ ok (t, c)
      → (amount : ℕ) × (any (is_order terms.id (order_of share)) s.sales ≡ false)
        × (t ≡ write_share w terms input clicks (order_of share) amount occurred_at now share s)
        × (c.affiliate_id ≡ share.affiliate_id)
  unfolding create_share
  share_parts share s {t} {c} done = elim (Option-cases (priced share s)) [
    | inl none_ ↦ let no_ = rw (create_share, none_) at done in absurd (cc)
    | inr (amount, some_) ↦ elim (Bool-cases (any (is_order terms.id (order_of share)) s.sales)) [
      | inl taken_ ↦ let no_ = rw (create_share, some_, taken_) at done in absurd (cc)
      | inr free_ ↦
          let pair = ok-injective (rw (create_share, some_, free_) at done) in
          (amount, free_, λ i. (sym pair i).0, λ i. (sym pair i).1.affiliate_id)
    ]
  ]

  -- The first share is created, and then the others.
  pub shares_parts :
      (share : AttributionShare) (rest : List AttributionShare) (s : Sales) {t : Sales}
      {cs : List Created}
      → create_shares w terms input clicks shares occurred_at now (share ∷ rest) s ≡ ok (t, cs)
      → (made : Sales × Created) × (others : List Created) × (create_share w terms input clicks
            shares occurred_at now share s
          ≡ ok made)
        × (create_shares w terms input clicks shares occurred_at now rest made.0 ≡ ok (t, others))
        × (cs ≡ made.1 ∷ others)
  unfolding create_shares
  shares_parts share rest s {t} {cs} done =
      let (made, first, later) =
        >>=-eq-ok (create_share w terms input clicks shares occurred_at now share s)
          (λ m. create_shares w terms input clicks shares occurred_at now rest m.0 >>= λ o.
            ok (o.0, m.1 ∷ o.1))
          done in
      let (others, second, last) =
        >>=-eq-ok (create_shares w terms input clicks shares occurred_at now rest made.0)
          (λ o. ok (o.0, made.1 ∷ o.1)) later in
      let pair = ok-injective last in
      (made, others.1, first, second ∙ (λ i. ok ((pair i).0, others.1)), λ i. (sym pair i).1)

  share_entry :
      (share : AttributionShare) (order : Text) (amount : ℕ) (s : Sales)
      → Entries terms.id 1 s (write_share w terms input clicks order amount occurred_at now share s)
  unfolding write_share
  share_entry share order amount s = record {
    new_sales = _ ∷ [];
    new_commissions = _ ∷ [];
    sales_grow = refl;
    commissions_grow = refl;
    campaigns_stay = refl;
    booked = (refl, refl, refl, refl, refl, refl, refl, tt);
    entries_counted = refl;
  }

  pub shares_booked :
      (rest : List AttributionShare) (s : Sales) {t : Sales} {cs : List Created}
      → create_shares w terms input clicks shares occurred_at now rest s ≡ ok (t, cs)
      → Entries terms.id (length rest) s t × (length cs ≡ length rest)
  unfolding create_shares
  shares_booked [] s {t} {cs} done =
      let pair = ok-injective done in
      (
        record {
          new_sales = [];
          new_commissions = [];
          sales_grow = λ i. (sym pair i).0.sales;
          commissions_grow = λ i. (sym pair i).0.commissions;
          campaigns_stay = λ i. (sym pair i).0.campaigns;
          booked = tt;
          entries_counted = refl;
        },
        λ i. length (sym pair i).1,
      )
  shares_booked (share ∷ rest) s {t} {cs} done =
      let (made, others, first, second, split_) = shares_parts share rest s done in
      let (amount, free, written, of_) = share_parts share s first in
      let (e, same) = shares_booked rest made.0 second in
      (
        (rw plus_one (then-Entries (rw written (share_entry share (order_of share) amount s)) e)),
        ap length split_ ∙ ap suc same,
      )
    where
      plus_one : {n : ℕ} → suc n ≡ n + 1
      plus_one = omega arith
