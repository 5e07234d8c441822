-- ===== src/Sale/Effects.antt =====
-- The parts of a report that leave the books alone, and the attribution of a sale that has a click.
use build_affiliate.Common.{
  ℕ, suc, ◌<◌, ◌≡◌, refl, Bool, true, List, [], ◌∷◌, ◌++◌, any, map, length, arith, Bool-cases, inl,
  inr,
}
use build_affiliate.Common.Sorting.{sort_by, length-sort_by}
use build_affiliate.Csv.{Text}
use build_affiliate.Money.Attribution.{
  AttributionModel, AttributionClick, AttributionShare, attribute, attribute_sorted, first_click,
  last_click, linear, dedup_from, set_click, click_time, share_of,
}
use build_affiliate.Money.Commission.{
  recurring, percentage_of, flat_per_sale, tiered_percentage, CommissionStructure,
}
use build_affiliate.Sale.Tables.{ClickEvent, Sale, Sales, Signal, text_starts_with}
use build_affiliate.Sale.Fraud.{evaluate, open_review}
use build_affiliate.Sale.Subscription.{start_if_recurring, clashes, FirstSale}
use build_affiliate.Sale.Share.{Surroundings, ReportInput, Created}
use build_affiliate.Sale.Report.{start_all, evaluate_all}
use build_affiliate.Sale.Booked.{Entries, then-Entries}

-- A call that leaves the books alone.
pub same_books :
    (campaign : ℕ) (s t : Sales)
    → t.sales ≡ s.sales
    → t.commissions ≡ s.commissions
    → t.campaigns ≡ s.campaigns
    → Entries campaign 0 s t
same_books campaign s t a b c = record {
  new_sales = [];
  new_commissions = [];
  sales_grow = a;
  commissions_grow = b;
  campaigns_stay = c;
  booked = tt;
  entries_counted = refl;
}

evaluate_entry :
    (campaign conversion : ℕ) (xs : List Signal) (s : Sales)
    → Entries campaign 0 s (open_review conversion xs s)
evaluate_entry campaign conversion [] s = same_books campaign s s refl refl refl
evaluate_entry campaign conversion (x ∷ xs) s = same_books campaign s _ refl refl refl

pub evaluate_all_entry :
    (campaign : ℕ) (input : ReportInput) (clicks : List ClickEvent) (occurred_at now : ℕ)
    (cs : List Created) (s : Sales)
    → Entries campaign 0 s (evaluate_all campaign input clicks occurred_at now cs s)
unfolding evaluate_all evaluate
evaluate_all_entry campaign input clicks occurred_at now [] s =
    same_books campaign s s refl refl refl
evaluate_all_entry campaign input clicks occurred_at now (c ∷ cs) s =
    then-Entries (evaluate_entry campaign _ _ s)
      (evaluate_all_entry campaign input clicks occurred_at now cs _)

start_entry :
    (campaign : ℕ) (args : FirstSale) (s : Sales) → Entries campaign 0 s (start_if_recurring args s)
unfolding start_if_recurring
start_entry campaign args s = by_structure args.structure refl
  where
    kept : args.structure ≡ args.structure → Entries campaign 0 s s
    kept e = same_books campaign s s refl refl refl

    by_structure :
        (t : CommissionStructure)
        → args.structure ≡ t
        → Entries campaign 0 s (start_if_recurring args s)
    by_structure (flat_per_sale a) e = rw (start_if_recurring, e) (kept refl)
    by_structure (percentage_of a b c) e = rw (start_if_recurring, e) (kept refl)
    by_structure (tiered_percentage ts) e = rw (start_if_recurring, e) (kept refl)
    by_structure (recurring a months) e = elim (Bool-cases (any (clashes args) s.subscriptions)) [
      | inl taken_ ↦ rw (start_if_recurring, e, taken_) (kept refl)
      | inr free_ ↦ rw (start_if_recurring, e, free_) (same_books campaign s _ refl refl refl)
    ]

pub start_all_entry :
    (w : Surroundings) (campaign : ℕ) (input : ReportInput) (cs : List Created) (s : Sales)
    → Entries campaign 0 s (start_all w campaign input cs s)
unfolding start_all
start_all_entry w campaign input [] s = same_books campaign s s refl refl refl
start_all_entry w campaign input (c ∷ cs) s =
    then-Entries (start_entry campaign _ s) (start_all_entry w campaign input cs _)

pub any-append : (p : Sale → Bool) (vs us : List Sale) → any p us ≡ true → any p (vs ++ us) ≡ true
any-append p [] us h = h
any-append p (v ∷ vs) us h = ground (arith, any-append p vs us)

pub starts_with_append :
    (order rest : Text) (c : ℕ) → text_starts_with (order ++ (c ∷ rest)) (order ++ (c ∷ [])) ≡ true
starts_with_append [] rest c = ground arith
starts_with_append (o ∷ order) rest c = ground (arith, starts_with_append order rest c)

set_grows : (c : AttributionClick) (ds : List AttributionClick) → 0 < length (set_click c ds)
unfolding set_click
set_grows c [] = omega arith
set_grows c (d ∷ ds) = ground arith

dedup_grows : (ds cs : List AttributionClick) → 0 < length ds → 0 < length (dedup_from ds cs)
unfolding dedup_from
dedup_grows ds [] h = h
dedup_grows ds (c ∷ cs) h = dedup_grows (set_click c ds) cs (set_grows c ds)

length-map :
    (f : AttributionClick → AttributionShare) (cs : List AttributionClick)
    → length (map f cs) ≡ length cs
length-map f [] = refl
length-map f (c ∷ cs) = λ i. suc (length-map f cs i)

-- A click earns a share.
pub attribute_some :
    (model : AttributionModel) (cs : List AttributionClick)
    → 0 < length cs
    → 0 < length (attribute model cs)
unfolding attribute
attribute_some model [] h = h
attribute_some model (c ∷ cs) h =
    by_model model (sort_by click_time (c ∷ cs))
      (rw (length-sort_by click_time (c ∷ cs)) (omega arith))
  where
    by_model :
        (m : AttributionModel) (ds : List AttributionClick)
        → 0 < length ds
        → 0 < length (attribute_sorted m ds)
    by_model m [] k = absurd (omega (arith, k))
    by_model first_click (d ∷ ds) k = omega arith
    by_model last_click (d ∷ ds) k = omega arith
    by_model linear (d ∷ ds) k =
        rw (length-map (share_of _) (dedup_from [] (d ∷ ds)))
          (dedup_grows (d ∷ []) ds (omega arith))
