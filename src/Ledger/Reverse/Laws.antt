-- ===== src/Ledger/Reverse/Laws.antt =====
-- What a reversal takes back.
use mathlib.Core.Path.{subst}
use build_affiliate.Common.{
  ℕ, ◌<◌, ◌≡◌, refl, true, false, not, some, [], ◌∷◌, ◌++◌, find, update_where, ◌==◌, if◌then◌else◌,
  arith, Bool-cases, inl, inr, ap, ◌∙◌, find-holds, ==_iff,
}
use build_affiliate.Common.Ratio.{Ratio}
use build_affiliate.Common.Result.{
  ok, guard, or_throw, >>=-eq-ok, ok-injective, or_throw-eq-ok, guard-eq-ok,
}
use build_affiliate.Money.Refund.{RefundOutcome, RefundResult, refunded, refused, calculate_refund}
use build_affiliate.Ledger.Tables.{
  Store, Conversion, ConversionStatus, Commission, conversion_not_found, not_approved,
  commission_not_found, commission_in_payout, included_in_payout, paid,
}
use build_affiliate.Ledger.Rows.{same_conversion_status, same_commission_status}
use build_affiliate.Ledger.Outbox.{enqueue_notification, enqueue_webhook_event}
use build_affiliate.Ledger.Reverse.{
  ReverseInput, refund_of, or_bad_request, reverse_conversion, clawback, reverse_row,
  reverse_commission, write_reversal, notify_reversal, ClawbackMethod, method_of, reverse_locked,
}

-- A refund amount with a meaningful denominator.
abbrev pub IsAmount : ReverseInput → Type 0
IsAmount input = (v : ℕ) → 0 < (refund_of input.refund_amount v).den

notify_reversal-tables :
    (now brand : ℕ) (conv : Conversion) (o : RefundOutcome) (input : ReverseInput) (s : Store)
    → let t = notify_reversal now brand conv o input s in
      (t.conversions ≡ s.conversions)
      × (t.commissions ≡ s.commissions)
      × (t.adjustments ≡ s.adjustments)
unfolding notify_reversal enqueue_notification enqueue_webhook_event
notify_reversal-tables now brand conv o input s = (refl, refl, refl)

-- What a successful reversal has read and done.
pub record Reversed (s : Store) (conversion_id : ℕ) (input : ReverseInput) (now : ℕ) (s' : Store)
    (o : RefundOutcome) (m : ClawbackMethod) (conv : Conversion) (c : Commission) : Type 0 where
  pub found : find (λ v. v.id == conversion_id) s.conversions ≡ some conv
  pub approved : same_conversion_status conv.status ConversionStatus.approved ≡ true
  pub outcome :
      calculate_refund conv.conversion_value conv.commission_amount
        (refund_of input.refund_amount conv.conversion_value)
      ≡ refunded o
  pub commission : find (λ k. k.conversion_id == conversion_id) s.commissions ≡ some c
  pub not_in_payout : same_commission_status c.status included_in_payout ≡ false
  pub conversions :
      s'.conversions
      ≡ update_where (λ v. v.id == conversion_id) (reverse_conversion o input now) s.conversions
  pub method : m ≡ method_of c
  pub commissions : s'.commissions ≡ (
      if same_commission_status c.status paid
      then s.commissions
      else update_where (λ k. k.id == c.id) (reverse_row o) s.commissions)
  pub adjustments : s'.adjustments ≡ (
      if same_commission_status c.status paid
      then s.adjustments ++ clawback s.next_id conv o ∷ []
      else s.adjustments)

or_bad_request-eq-ok :
    (r : RefundResult) {o : RefundOutcome} → or_bad_request r ≡ ok o → r ≡ refunded o
or_bad_request-eq-ok (refunded o) h = ap refunded (ok-injective h)
or_bad_request-eq-ok (refused e) h = cc

written_tables :
    (s : Store) (conv : Conversion) (c : Commission) (o : RefundOutcome) (input : ReverseInput)
    (r : Ratio) (now : ℕ)
    → let t = write_reversal s conv c o input r now in
      (t.conversions
        ≡ update_where (λ v. v.id == conv.id) (reverse_conversion o input now) s.conversions)
      × (t.commissions ≡ (
          if same_commission_status c.status paid
          then s.commissions
          else update_where (λ k. k.id == c.id) (reverse_row o) s.commissions))
      × (t.adjustments ≡ (
          if same_commission_status c.status paid
          then s.adjustments ++ clawback s.next_id conv o ∷ []
          else s.adjustments))
unfolding write_reversal reverse_commission
written_tables s conv c o input r now = elim (Bool-cases (same_commission_status c.status paid)) [
  | inl yes_ ↦ rw yes_ (refl, refl, refl)
  | inr no_ ↦ rw no_ (refl, refl, refl)
]

pub reverse-Reversed :
    (s : Store) (brand conversion_id : ℕ) (input : ReverseInput) (now : ℕ) {s' : Store}
    {o : RefundOutcome} {m : ClawbackMethod}
    → reverse_locked s brand conversion_id input now ≡ ok (s', o, m)
    → (conv : Conversion) × (c : Commission) × Reversed s conversion_id input now s' o m conv c
unfolding reverse_locked
reverse-Reversed s brand conversion_id input now h =
    let (conv, found, h1) =
      >>=-eq-ok (or_throw (find (λ c. c.id == conversion_id) s.conversions) conversion_not_found) _
        h in
    let (_, status, h2) =
      >>=-eq-ok (guard (same_conversion_status conv.status ConversionStatus.approved) not_approved)
        _ h1 in
    let refund = refund_of input.refund_amount conv.conversion_value in
    let (o, splits, h3) =
      >>=-eq-ok
        (or_bad_request (calculate_refund conv.conversion_value conv.commission_amount refund)) _
        h2 in
    let (c, commission, h4) =
      >>=-eq-ok
        (or_throw (find (λ c. c.conversion_id == conversion_id) s.commissions) commission_not_found)
        _ h3 in
    let (_, free, done) =
      >>=-eq-ok
        (guard (not (same_commission_status c.status included_in_payout)) commission_in_payout) _
        h4 in
    let found' = or_throw-eq-ok _ conversion_not_found found in
    let same : conv.id ≡ conversion_id =
      (==_iff conv.id conversion_id).0
        (find-holds (λ v. v.id == conversion_id) s.conversions found') in
    let outside =
      notify_reversal-tables now brand conv o input (write_reversal s conv c o input refund now) in
    let inside = written_tables s conv c o input refund now in
    let unclaimed =
      guard-eq-ok (not (same_commission_status c.status included_in_payout)) commission_in_payout
        free in
    (
      conv,
      c,
      subst
          (λ (q : Store × RefundOutcome × ClawbackMethod).
            Reversed s conversion_id input now q.0 q.1 q.2 conv c)
          (ok-injective done)
          (record {
            found = found';
            approved = guard-eq-ok _ not_approved status;
            outcome = or_bad_request-eq-ok _ splits;
            commission = or_throw-eq-ok _ commission_not_found commission;
            not_in_payout = ground arith;
            conversions =
                outside.0
                ∙ inside.0
                ∙ ap
                    (λ (n : ℕ).
                      update_where (λ v. v.id == n) (reverse_conversion o input now) s.conversions)
                    same;
            method = refl;
            commissions = outside.1 ∙ inside.1;
            adjustments = outside.2 ∙ inside.2;
          }),
    )
