-- ===== src/Ledger/Examples.antt =====
-- A small database, and the theorems on the ledger at concrete calls. Affiliate 7 has two approved
-- commissions, 60.00 and 30.00, of conversions 11 and 12, and owes 10.00 back from an earlier refund.
mod Payouts
mod Conversions
use Prim.Native.String.{String}
use build_affiliate.Common.{ℕ, Bool, none, some, Option, List, [], ◌∷◌}
use build_affiliate.Common.Int.{ℤ, pos, negsuc}
use build_affiliate.Common.Ratio.{Ratio}
use build_affiliate.Common.Result.{Result, ok, err}
use build_affiliate.Lifecycle.Payout.{PayoutStatus}
use build_affiliate.Ledger.Tables.{
  Store, User, Campaign, Conversion, ConversionStatus, Commission, CommissionStatus, Payout,
  PayoutMethod, BalanceAdjustment, LedgerError, manual,
}
use build_affiliate.Ledger.Transition.{TransitionOptions}

abbrev pub fee_percent : Ratio
fee_percent = record { num = 5; den = 2 }

abbrev commission : ℕ → ℕ → CommissionStatus → ℕ → Commission
commission id conversion status amount = record {
  id = id;
  affiliate_id = 7;
  campaign_id = 5;
  conversion_id = conversion;
  amount = amount;
  status = status;
  lock_expires_at = some 500;
  approved_at = none;
  paid_at = none;
  payout_id = none;
  created_at = 100;
}

abbrev conversion : ℕ → ConversionStatus → ℕ → Conversion
conversion id status amount = record {
  id = id;
  tracking_link_id = 3;
  campaign_id = 5;
  affiliate_id = 7;
  external_order_id = "order";
  conversion_value = 60000;
  commission_amount = amount;
  status = status;
  notes = none;
  approved_at = none;
  rejected_at = none;
  rejection_reason = none;
}

abbrev pub database : Store
database = record {
  users =
      record {
        id = 7;
        stripe_connect_account_id = none;
        paypal_email = none;
        manual_payout_details = some "bank";
      }
      ∷ [];
  campaigns = record { id = 5; brand_id = 9 } ∷ [];
  conversions =
      conversion 11 ConversionStatus.approved 6000
      ∷ conversion 12 ConversionStatus.approved 3000
      ∷ conversion 13 ConversionStatus.pending 2000
      ∷ [];
  commissions =
      commission 21 11 CommissionStatus.approved 6000
      ∷ commission 22 12 CommissionStatus.approved 3000
      ∷ commission 23 13 CommissionStatus.locked 2000
      ∷ [];
  payouts = [];
  payout_events = [];
  adjustments =
      record {
        id = 31;
        affiliate_id = 7;
        amount = negsuc 999;
        conversion_id = some 10;
        settled_payout_id = none;
      }
      ∷ [];
  link_changes = [];
  notifications = [];
  endpoints = [];
  deliveries = [];
  next_id = 100;
}

abbrev pub because : String → TransitionOptions
because reason = record { actor_id = 1; reason = some reason; reference = none }

-- The store and the result of a call, where it succeeds.
abbrev pub store_after : {A : Type 0} → Store → Result LedgerError (Store × A) → Store
store_after s (ok (t, a)) = t
store_after s (err e) = s

abbrev pub result_of : {A : Type 0} → A → Result LedgerError (Store × A) → A
result_of d (ok (t, a)) = a
result_of d (err e) = d

abbrev pub no_payout : Payout
no_payout = record {
  id = 0;
  affiliate_id = 0;
  amount = 0;
  fee_amount = 0;
  net_amount = pos 0;
  method = manual;
  status = PayoutStatus.failed;
  stripe_transfer_id = none;
  failure_reason = none;
  idempotency_key = none;
  period_start = 0;
  period_end = 0;
  paid_at = none;
}
