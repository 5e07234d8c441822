-- ===== src/Ledger/Examples/Conversions.antt =====
-- The theorems on conversions, at the conversions of the example database.
use build_affiliate.Common.{
  ℕ, zero, suc, ◌≤◌, ◌++◌, List, count, ◌≡◌, refl, ◌+◌, true, false, none, some, [], ◌∷◌, arith,
  All, ◌==◌,
}
use build_affiliate.Common.Ratio.{whole, round_div}
use build_affiliate.Common.Result.{Result, ok, err}
use build_affiliate.Money.Refund.{RefundOutcome, calculate_refund, refund_outcome, kept_commission}
use build_affiliate.Ledger.Tables.{
  Store, Conversion, ConversionStatus, Commission, CommissionStatus, LedgerError,
}
use build_affiliate.Ledger.Review.{approve, reject, commit_review, write_review}
use build_affiliate.Ledger.Review.Laws.{second_review_conflicts}
use build_affiliate.Ledger.Reverse.{
  ReverseInput, ClawbackMethod, commission_change, reverse_locked, write_reversal,
  reverse_conversion, reverse_commission, notify_reversal,
}
use build_affiliate.Ledger.Outbox.{enqueue_notification, enqueue_webhook_event}
use build_affiliate.Ledger.Reverse.Kept.{
  kept, none_yet, then_one, reversal_conserves, Reversals-bounded,
}
use build_affiliate.Ledger.Promote.{find_promotable, promote, batch, is_expired, has_approved}
use build_affiliate.Ledger.Promote.Laws.{promotion_overwrites}
use build_affiliate.Ledger.Promote.Starved.{run_passes, batch_starves}
use build_affiliate.Ledger.Examples.{database, conversion, commission, store_after, result_of}

-- Of the order of 600.00, 150.00 is refunded, and then the rest.
abbrev part : ReverseInput
part = record { reason = "returned"; refund_amount = some (whole 15000) }

abbrev rest : ReverseInput
rest = record { reason = "returned"; refund_amount = none }

abbrev reversal : Store → ReverseInput → Result LedgerError (Store × RefundOutcome × ClawbackMethod)
reversal s input = reverse_locked s 9 11 input 700

abbrev reversed : Store → ReverseInput → Store
reversed s input = elim (reversal s input) [ ok q ↦ q.0 | err e ↦ s ]

abbrev outcome : Store → ReverseInput → RefundOutcome
outcome s input = elim (reversal s input) [
  | ok q ↦ q.1
  | err e ↦ record {
    remaining_value = 0;
    remaining_commission = 0;
    clawback_amount = 0;
    is_full_refund = false;
  }
]

first :
    reversal database part ≡ ok (reversed database part, outcome database part, commission_change)
unfolding reverse_locked calculate_refund
first = refl

second :
    reversal (reversed database part) rest
    ≡ ok (
      reversed (reversed database part) rest,
      outcome (reversed database part) rest,
      commission_change,
    )
unfolding reverse_locked calculate_refund write_reversal reverse_commission reverse_conversion
    refund_outcome kept_commission round_div notify_reversal enqueue_webhook_event
    enqueue_notification
second = refl

reversal_conserves_example :
    kept 11 (reversed database part) + (outcome database part).clawback_amount ≡ kept 11 database
reversal_conserves_example = (reversal_conserves database 9 11 part 700 (λ v. omega arith) first).0

Reversals-bounded_example :
    kept 11 (reversed (reversed database part) rest)
      + (0
          + (outcome database part).clawback_amount
          + (outcome (reversed database part) rest).clawback_amount)
    ≡ kept 11 database
Reversals-bounded_example = Reversals-bounded 11 (
    then_one (then_one none_yet 9 part 700 (λ v. omega arith) first) 9 rest 700 (λ v. omega arith)
      second)

whole_order :
    reversal database rest ≡ ok (reversed database rest, outcome database rest, commission_change)
unfolding reverse_locked calculate_refund
whole_order = refl

-- The pending conversion is approved by one request and rejected by another.
abbrev approval : Result LedgerError (Store × Conversion)
approval =
    commit_review database 9 (conversion 13 ConversionStatus.pending 2000)
      (record { decision = approve; reason = none }) 800

abbrev reviewed : Store
reviewed = store_after database approval

approved_first :
    approval ≡ ok (reviewed, result_of (conversion 13 ConversionStatus.pending 2000) approval)
unfolding commit_review write_review
approved_first = refl

second_review_conflicts_example :
    commit_review reviewed 9
      (conversion 13 ConversionStatus.pending 2000)
      (record { decision = reject; reason = some "fraud" })
      801
    ≡ err LedgerError.review_conflict
second_review_conflicts_example =
    second_review_conflicts database 9 9 (conversion 13 ConversionStatus.pending 2000)
      (conversion 13 ConversionStatus.pending 2000) (record { decision = approve; reason = none })
      (record { decision = reject; reason = some "fraud" }) 800 801 refl approved_first

-- A commission of an approved conversion whose lock has expired, and one of a pending one.
abbrev locked_commissions : Store
locked_commissions = record database {
  commissions =
      commission 24 11 CommissionStatus.locked 6000
      ∷ commission 23 13 CommissionStatus.locked 2000
      ∷ [];
}

abbrev clawed_back_meanwhile : Store
clawed_back_meanwhile = record database {
  commissions = commission 24 11 CommissionStatus.clawed_back 6000 ∷ [];
}

promotion_overwrites_example :
    All
      (λ c. c.id == 24 ≡ true → c.status ≡ CommissionStatus.approved)
      (promote (find_promotable locked_commissions 600 200) 601 clawed_back_meanwhile).commissions
unfolding find_promotable
promotion_overwrites_example =
    promotion_overwrites locked_commissions clawed_back_meanwhile 600 200 601 24 refl

abbrev waits_for_review : Commission
waits_for_review = commission 23 13 CommissionStatus.locked 2000

abbrev starved : Commission
starved = commission 24 11 CommissionStatus.locked 2000

abbrev copies : ℕ → List Commission
copies zero = []
copies (suc n) = waits_for_review ∷ copies n

blocked_copies : (n : ℕ) → All (λ d. has_approved database.conversions d ≡ false) (copies n)
blocked_copies zero = tt
blocked_copies (suc n) = (refl, blocked_copies n)

due_copies : (n : ℕ) → n ≤ count (is_expired 600) (copies n)
due_copies zero = omega arith
due_copies (suc n) = omega (arith, due_copies n)

abbrev waiting : Store
waiting = record database { commissions = copies batch ++ (starved ∷ []) }

batch_starves_example :
    (run_passes (600 ∷ 700 ∷ []) waiting ≡ waiting)
    × All (λ t. is_expired t starved ≡ true) (600 ∷ 700 ∷ [])
batch_starves_example =
    batch_starves waiting 600 (copies batch) [] starved (600 ∷ 700 ∷ []) refl refl refl
      (blocked_copies batch) (due_copies batch) (omega arith, (omega arith, tt))
