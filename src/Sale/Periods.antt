-- ===== src/Sale/Periods.antt =====
-- How often a subscription is billed, over any sequence of billing events.
use mathlib.Core.Path.{subst}
use build_affiliate.Common.{
  ℕ, suc, ◌+◌, ◌≤◌, ◌≡◌, refl, sym, ◌∙◌, true, false, max, some, List, [], ◌∷◌, ◌==◌, leb, any,
  find, length, All, arith, Bool-cases, Option-cases, inl, inr, find-updated, update_where,
}
use build_affiliate.Common.Result.{Result, ok, err, ok-injective}
use build_affiliate.Csv.{Text}
use build_affiliate.Money.Commission.{calculate_commission}
use build_affiliate.Sale.Tables.{CampaignTerms, Subscription, Sales, SaleError, is_order, completed}
use build_affiliate.Sale.Subscription.{
  RecurringBillingInput, period_order, is_reference, Billing, billed, skipped_cancelled,
  skipped_term_complete, is_completed, is_cancelled, close_term, complete_period, write_period,
  bill_period, record_billing_period,
}

abbrev pub periods_of : Billing → ℕ
periods_of (billed b) = 1
periods_of _ = 0

-- What one event does to the subscription that it is for.
pub record IsBilled (campaign : ℕ) (reference : Text) (x : Subscription) (b : Billing) (s t : Sales)
    : Type 0 where
  pub row : Subscription
  pub found : find (is_reference campaign reference) t.subscriptions ≡ some row
  pub same_total : row.total_periods ≡ x.total_periods
  pub moved : row.completed_periods ≡ x.completed_periods + periods_of b
  pub within : row.completed_periods ≤ max x.completed_periods x.total_periods
  pub paid : length t.commissions ≡ length s.commissions + periods_of b
  pub sold : length t.sales ≡ length s.sales + periods_of b

same_id : (n : ℕ) → (n == n) ≡ true
same_id n = ground arith

updated_found :
    (campaign : ℕ) (reference : Text) (x : Subscription) (f : Subscription → Subscription)
    (rows : List Subscription)
    → ((y : Subscription)
        → is_reference campaign reference (f y) ≡ is_reference campaign reference y)
    → find (is_reference campaign reference) rows ≡ some x
    → find (is_reference campaign reference) (update_where (λ y. y.id == x.id) f rows) ≡ some (f x)
updated_found campaign reference x f rows same found =
    find-updated (is_reference campaign reference) (λ y. y.id == x.id) f rows same found
    ∙ rw (same_id x.id) refl

module _ (campaign : ℕ) (input : RecurringBillingInput) (now : ℕ) (s : Sales) (x : Subscription)
    (found : find (is_reference campaign input.external_reference) s.subscriptions ≡ some x) where
  unbilled : (b : Billing) → periods_of b ≡ 0 → IsBilled campaign input.external_reference x b s s
  unbilled b none_ = record {
    row = x;
    found = found;
    same_total = refl;
    moved = omega (arith, none_);
    within = omega arith;
    paid = omega (arith, none_);
    sold = omega (arith, none_);
  }

  term_over : IsBilled campaign input.external_reference x skipped_term_complete s (close_term x s)
  unfolding close_term
  term_over = elim (Bool-cases (is_completed x.status)) [
    | inl done_ ↦ rw done_ (unbilled skipped_term_complete refl)
    | inr open_ ↦ rw open_ (record {
      row = record x { status = completed };
      found =
          updated_found campaign input.external_reference x (λ y. record y { status = completed })
            s.subscriptions (λ y. refl) found;
      same_total = refl;
      moved = omega arith;
      within = omega arith;
      paid = omega arith;
      sold = omega arith;
    })
  ]

  abbrev order : Text
  order = period_order input.external_reference (suc x.completed_periods)

  bill_step :
      (terms : CampaignTerms) {t : Sales} {b : Billing}
      → (leb x.total_periods x.completed_periods) ≡ false
      → bill_period terms x input now s ≡ ok (t, b)
      → IsBilled campaign input.external_reference x b s t
  unfolding bill_period write_period
  bill_step terms {t} {b} left done = elim (Bool-cases (any (is_order terms.id order) s.sales)) [
    | inl there_ ↦ let no_ = rw (bill_period, there_) at done in absurd (cc)
    | inr new_ ↦ elim (Option-cases (calculate_commission x.commission_snapshot input.amount 0)) [
      | inl none_ ↦ let no_ = rw (bill_period, new_, none_) at done in absurd (cc)
      | inr (amount, some_) ↦
          let pair = ok-injective (rw (bill_period, new_, some_) at done) in
          subst (λ p. IsBilled campaign input.external_reference x p.1 s p.0) pair
            (record {
              row = complete_period (suc x.completed_periods) x x;
              found =
                  updated_found campaign input.external_reference x
                    (complete_period (suc x.completed_periods) x) s.subscriptions (λ y. refl) found;
              same_total = refl;
              moved = omega arith;
              within = ground arith;
              paid = omega arith;
              sold = omega arith;
            })
    ]
  ]

  event_step :
      {t : Sales} {b : Billing}
      → record_billing_period campaign input now s ≡ ok (t, b)
      → IsBilled campaign input.external_reference x b s t
  unfolding record_billing_period
  event_step {t} {b} done =
      elim (Option-cases (find (λ (c : CampaignTerms). c.id == campaign) s.campaigns)) [
        | inl none_ ↦ let no_ = rw (record_billing_period, none_) at done in absurd (cc)
        | inr (terms, known_) ↦ elim (Bool-cases (is_cancelled x.status)) [
          | inl gone_ ↦
              let pair = ok-injective (rw (record_billing_period, known_, found, gone_) at done) in
              subst (λ p. IsBilled campaign input.external_reference x p.1 s p.0) pair
                (unbilled skipped_cancelled refl)
          | inr kept_ ↦ elim (Bool-cases (leb x.total_periods x.completed_periods)) [
            | inl over_ ↦
                let pair =
                  ok-injective (rw (record_billing_period, known_, found, kept_, over_) at done) in
                subst (λ p. IsBilled campaign input.external_reference x p.1 s p.0) pair term_over
            | inr left_ ↦
                bill_step terms left_
                  (rw (record_billing_period, known_, found, kept_, left_) at done)
          ]
        ]
      ]

-- A sequence of billing events, and how many of them were billed; an event that throws writes nothing.
abbrev pub after_event : Sales → Result SaleError (Sales × Billing) → Sales × ℕ
after_event s (err e) = (s, 0)
after_event s (ok (t, b)) = (t, periods_of b)

unfoldable pub run_billing : ℕ → List (RecurringBillingInput × ℕ) → Sales → Sales × ℕ
run_billing campaign [] s = (s, 0)
run_billing campaign (e ∷ es) s =
    let first = after_event s (record_billing_period campaign e.0 e.1 s) in
    let rest = run_billing campaign es first.0 in (rest.0, first.1 + rest.1)

abbrev IsWithinTerm : ℕ → Sales → Subscription → Sales × ℕ → Type 0
IsWithinTerm campaign s x r =
    (x.completed_periods + r.1 ≤ max x.completed_periods x.total_periods)
    × (length r.0.commissions ≡ length s.commissions + r.1)
    × (length r.0.sales ≡ length s.sales + r.1)

-- Whatever billing events come for a subscription, and however often each is repeated, no more of them
-- are billed than the term has periods left, and the sales and the commissions grow by exactly one
-- each for every event that is billed.
pub periods_bounded :
    (campaign : ℕ) (reference : Text) (es : List (RecurringBillingInput × ℕ)) (s : Sales)
    (x : Subscription)
    → All (λ e. e.0.external_reference ≡ reference) es
    → find (is_reference campaign reference) s.subscriptions ≡ some x
    → IsWithinTerm campaign s x (run_billing campaign es s)
unfolding run_billing
periods_bounded campaign reference [] s x refer found = (omega arith, omega arith, omega arith)
periods_bounded campaign reference (e ∷ es) s x refer found =
    answered (λ t y. periods_bounded campaign reference es t y refer.1)
      (record_billing_period campaign e.0 e.1 s) refl
  where
    answered :
        ((t : Sales) (y : Subscription)
          → find (is_reference campaign reference) t.subscriptions ≡ some y
          → IsWithinTerm campaign t y (run_billing campaign es t))
        → (r : Result SaleError (Sales × Billing)) → record_billing_period campaign e.0 e.1 s ≡ r
        → IsWithinTerm campaign s x (
          (run_billing campaign es (after_event s r).0).0,
          (after_event s r).1 + (run_billing campaign es (after_event s r).0).1,
        )
    answered later (err thrown) same =
        let (in_term, paid_, sold_) = later s x found in
        (omega (arith, in_term), omega (arith, paid_), omega (arith, sold_))
    answered later (ok (t, b)) same =
        let step = event_step campaign e.0 e.1 s x (rw refer.0 found) same in
        let (in_term, paid_, sold_) = later t step.row (rw (sym refer.0) step.found) in
        let over = step.within in
        let moved = step.moved in
        let total = step.same_total in
        let paid = step.paid in
        let sold = step.sold in
        (
          omega (arith, in_term, over, moved, total),
          omega (arith, paid_, paid),
          omega (arith, sold_, sold),
        )
