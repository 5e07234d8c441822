-- ===== src/Ledger/Examples/Payouts.antt =====
-- The theorems on payouts, at a payout of 80.00 that the affiliate of the example database requests.
use build_affiliate.Common.{ℕ, ◌≡◌, refl, none, arith, filter, count}
use build_affiliate.Common.Int.{pos, ◌+ℤ◌}
use build_affiliate.Common.Result.{Result, ok}
use build_affiliate.Lifecycle.Payout.{
  PayoutStatus, processing, paid, failed, can_transition_payout, settles_commissions,
}
use build_affiliate.Ledger.Tables.{Store, Payout, LedgerError, manual}
use build_affiliate.Ledger.Rows.{unsettled, sum_adjustments, included_in}
use build_affiliate.Ledger.Request.{gross_of, new_payout, key_taken, write_payout, create_payout}
use build_affiliate.Ledger.Request.Claims.{NotAttached}
use build_affiliate.Ledger.Request.Handler.{request_accounts}
use build_affiliate.Ledger.Transition.{
  move_payout, write_transition, plan_transition, commit_transition, transition,
}
use build_affiliate.Ledger.Transition.Effects.{included_for}
use build_affiliate.Ledger.Transition.Handler.{transition_balances}
use build_affiliate.Ledger.Faults.{retry_pays_twice}
use build_affiliate.Ledger.Outbox.{enqueue_notification}
use build_affiliate.Ledger.Examples.{
  database, fee_percent, because, store_after, result_of, no_payout,
}

abbrev request : Result LedgerError (Store × Payout)
request = create_payout database 7 manual none fee_percent

abbrev requested : Store
requested = store_after database request

abbrev requested_payout : Payout
requested_payout = result_of no_payout request

made : request ≡ ok (requested, requested_payout)
unfolding create_payout gross_of ◌+ℤ◌ key_taken
made = refl

fresh : NotAttached 100 database.commissions
fresh = (refl, (refl, (refl, tt)))

request_accounts_example :
    pos requested_payout.amount
    ≡ pos (included_for requested_payout.id 7 requested.commissions)
      +ℤ sum_adjustments (filter (unsettled 7) database.adjustments)
request_accounts_example =
    (request_accounts database 7 7 manual none fee_percent
      (record { positive_den = omega arith; at_most_100 = omega arith }) fresh made).0

abbrev move : Store → PayoutStatus → ℕ → Result LedgerError (Store × Payout)
move s to now = transition s 100 to (because "bank") now

abbrev after : Store → PayoutStatus → ℕ → Store
after s to now = store_after s (move s to now)

abbrev moved : Store → PayoutStatus → ℕ → Payout
moved s to now = result_of no_payout (move s to now)

abbrev started : Store
started = after requested processing 200

start : move requested processing 200 ≡ ok (started, moved requested processing 200)
unfolding transition plan_transition commit_transition can_transition_payout create_payout gross_of
    ◌+ℤ◌ key_taken new_payout write_payout
start = refl

abbrev complete : Store
complete = after started paid 300

completion : move started paid 300 ≡ ok (complete, moved started paid 300)
unfolding transition plan_transition commit_transition can_transition_payout create_payout gross_of
    ◌+ℤ◌ key_taken new_payout write_payout move_payout write_transition
completion = refl

transition_balances_example : count (included_in 100) complete.commissions ≡ 0
unfolding settles_commissions
transition_balances_example =
    ((transition_balances started 100 7 paid (because "bank") 300 completion).1 refl).2

abbrev failed_once : Store
failed_once = after requested failed 300

failure : move requested failed 300 ≡ ok (failed_once, moved requested failed 300)
unfolding transition plan_transition commit_transition can_transition_payout create_payout gross_of
    ◌+ℤ◌ key_taken new_payout write_payout
failure = refl

abbrev retried : Store
retried = after failed_once processing 400

retry : move failed_once processing 400 ≡ ok (retried, moved failed_once processing 400)
unfolding transition plan_transition commit_transition can_transition_payout create_payout gross_of
    ◌+ℤ◌ key_taken new_payout write_payout move_payout write_transition enqueue_notification
retry = refl

abbrev paid_after_all : Store
paid_after_all = after retried paid 500

pay : move retried paid 500 ≡ ok (paid_after_all, moved retried paid 500)
unfolding transition plan_transition commit_transition can_transition_payout create_payout gross_of
    ◌+ℤ◌ key_taken new_payout write_payout move_payout write_transition enqueue_notification
pay = refl

retry_pays_twice_example : (moved retried paid 500).status ≡ paid
retry_pays_twice_example =
    (retry_pays_twice requested 100 7 (because "bank") (because "bank") (because "bank") 300 400 500
      failure retry pay).0
