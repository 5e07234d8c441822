-- ===== src/Ledger/Transition.antt =====
-- `transition` of apps/api/src/services/payout.service.ts. The payout is read and checked before the
-- transaction (`plan_transition`), and written inside it (`commit_transition`): another request may
-- run in between.
pub mod Effects
pub mod Handler
use Prim.Native.String.{String}
use build_affiliate.Common.{
  ℕ, suc, ◌+◌, ◌≡◌, Bool, true, false, ◌&&◌, ◌||◌, not, Option, none, some, List, [], ◌∷◌, ◌++◌,
  filter, find, update_where, ◌==◌, if◌then◌else◌,
}
use build_affiliate.Common.Int.{ℤ, pos}
use build_affiliate.Common.Text.{is_truthy}
use build_affiliate.Common.Result.{Result, ok, err, ◌>>=◌, ◌>>◌, guard, or_throw}
use build_affiliate.Lifecycle.Payout.{
  PayoutStatus, failed, same_status, can_transition_payout, releases_commissions,
  settles_commissions,
}
use build_affiliate.Lifecycle.Payout
use build_affiliate.Webhook.Tables.{payout_completed, WebhookPayload, of_payout}
use build_affiliate.Ledger.Tables.{
  Store, Payout, PayoutEvent, stated, Commission, Campaign, CommissionStatus, paid, approved,
  Notification, payout_paid, payout_failed, LedgerError, payout_not_found, invalid_transition,
  reason_required, record_missing,
}
use build_affiliate.Ledger.Rows.{included_in, is_id}
use build_affiliate.Ledger.Outbox.{enqueue_notification, enqueue_webhook_event}

pub record TransitionOptions : Type 0 where
  pub actor_id : ℕ
  pub reason : Option String
  pub reference : Option String

-- Everything before the transaction.
unfoldable pub plan_transition :
    Store → ℕ → PayoutStatus → TransitionOptions → Result LedgerError Payout
plan_transition s payout_id to opts = do
  payout ← or_throw (find (λ p. p.id == payout_id) s.payouts) payout_not_found
  guard (can_transition_payout payout.status to) invalid_transition
  guard (not (same_status to failed && not (is_truthy opts.reason))) reason_required
  ok payout

-- The update of the payout's row.
unfoldable pub move_payout : PayoutStatus → TransitionOptions → ℕ → Payout → Payout
move_payout to opts now p = record p {
  status = to;
  paid_at = if settles_commissions to then some now else p.paid_at;
  failure_reason = if same_status to failed then opts.reason else p.failure_reason;
  stripe_transfer_id = if is_truthy opts.reference then opts.reference else p.stripe_transfer_id;
}

abbrev pub pay_row : ℕ → Commission → Commission
pay_row now c = record c { status = paid; paid_at = some now }

abbrev pub release_row : Commission → Commission
release_row c = record c { status = CommissionStatus.approved; payout_id = none }

-- The two conditional `updateMany` on the attached commissions.
unfoldable pub move_commissions : PayoutStatus → ℕ → ℕ → List Commission → List Commission
move_commissions to payout_id now cs =
    let settled =
      if settles_commissions to
      then update_where (included_in payout_id) (pay_row now) cs
      else cs in
    if releases_commissions to
    then update_where (included_in payout_id) release_row settled
    else settled

-- The brand of a commission, through its campaign. The foreign key makes it exist.
abbrev pub brand_of : List Campaign → Commission → Option ℕ
brand_of campaigns c = elim (find (λ k. k.id == c.campaign_id) campaigns) [
  | none ↦ none
  | some k ↦ some k.brand_id
]

pub record BrandShare : Type 0 where
  pub brand_id : ℕ
  pub count : ℕ
  pub total : ℕ

-- One turn of the loop that fills `shares`, a `Map` in order of insertion.
unfoldable pub add_share : ℕ → ℕ → List BrandShare → List BrandShare
add_share brand amount [] = record { brand_id = brand; count = 1; total = amount } ∷ []
add_share brand amount (b ∷ bs) =
    if b.brand_id == brand
    then record b { count = b.count + 1; total = b.total + amount } ∷ bs
    else b ∷ add_share brand amount bs

abbrev pub add_commission : List Campaign → Commission → List BrandShare → List BrandShare
add_commission campaigns c shares = elim (brand_of campaigns c) [
  | none ↦ shares
  | some brand ↦ add_share brand c.amount shares
]

unfoldable pub brand_shares : List Campaign → List Commission → List BrandShare → List BrandShare
unfolding add_share
brand_shares campaigns [] shares = shares
brand_shares campaigns (c ∷ cs) shares =
    brand_shares campaigns cs (add_commission campaigns c shares)

-- The loop that emits one event for each brand.
unfoldable pub emit_shares : ℕ → ℕ → ℕ → Option ℕ → List BrandShare → Store → Store
emit_shares now payout_id affiliate paid_at [] s = s
emit_shares now payout_id affiliate paid_at (b ∷ bs) s =
    emit_shares now payout_id affiliate paid_at bs (
      enqueue_webhook_event now b.brand_id payout_completed
        (of_payout (record {
          payout_id = payout_id;
          affiliate_id = affiliate;
          paid_at = paid_at;
          commission_count = b.count;
          amount = b.total;
        }))
        s)

unfoldable pub emit_payout_completed : ℕ → ℕ → ℕ → Option ℕ → Store → Store
unfolding brand_shares emit_shares
emit_payout_completed now payout_id affiliate paid_at s =
    emit_shares now payout_id affiliate paid_at
      (brand_shares s.campaigns (filter (λ c. is_id payout_id c.payout_id) s.commissions) []) s

-- The rows that tell the affiliate and the brands.
abbrev pub notify_paid : ℕ → Payout → Payout → TransitionOptions → Store → Store
notify_paid now read updated opts s =
    emit_payout_completed now read.id read.affiliate_id updated.paid_at (
      enqueue_notification
        (record {
          user_id = read.affiliate_id;
          type = payout_paid;
          subject_id = read.id;
          order_id = none;
          amount = updated.net_amount;
          reason = opts.reason;
        })
        s)

abbrev pub notify_failed : Payout → Payout → TransitionOptions → Store → Store
notify_failed read updated opts s =
    enqueue_notification
      (record {
        user_id = read.affiliate_id;
        type = payout_failed;
        subject_id = read.id;
        order_id = none;
        amount = updated.net_amount;
        reason = opts.reason;
      })
      s

abbrev pub notify_transition :
    PayoutStatus → ℕ → Payout → Payout → TransitionOptions → Store → Store
notify_transition PayoutStatus.paid now read updated opts s = notify_paid now read updated opts s
notify_transition PayoutStatus.failed now read updated opts s = notify_failed read updated opts s
notify_transition _ now read updated opts s = s

-- The three effects on the tables, without what is told to others.
unfoldable pub write_transition : Store → Payout → PayoutStatus → TransitionOptions → ℕ → Store
write_transition s read to opts now = record s {
  payouts = update_where (λ p. p.id == read.id) (move_payout to opts now) s.payouts;
  commissions = move_commissions to read.id now s.commissions;
  payout_events =
      s.payout_events
      ++ record {
        payout_id = read.id;
        from_status = read.status;
        to_status = to;
        actor_id = opts.actor_id;
        reason = stated opts.reason;
        reference = opts.reference;
      }
        ∷ [];
}

-- The transaction, on the payout that was read before it. `update` throws if the row is gone.
unfoldable pub commit_transition :
    Store → Payout → PayoutStatus → TransitionOptions → ℕ → Result LedgerError (Store × Payout)
commit_transition s read to opts now = do
  row ← or_throw (find (λ p. p.id == read.id) s.payouts) record_missing
  let updated = move_payout to opts now row
  ok (notify_transition to now read updated opts (write_transition s read to opts now), updated)

-- The whole handler, with nothing in between.
unfoldable pub transition :
    Store → ℕ → PayoutStatus → TransitionOptions → ℕ → Result LedgerError (Store × Payout)
transition s payout_id to opts now = do
  read ← plan_transition s payout_id to opts
  commit_transition s read to opts now
