-- ===== src/Ledger/Transition/Handler.antt =====
-- The handler `transition` as a whole: its guards, and what it leaves in the tables.
use mathlib.Core.Path.{subst}
use build_affiliate.Common.{
  ℕ, ◌+◌, ◌≡◌, refl, true, ◌&&◌, not, Option, none, some, List, [], ◌∷◌, filter, find, update_where,
  count, ◌==◌, arith, ap, find-holds, ==_iff, sym, ◌∙◌,
}
use build_affiliate.Common.Text.{is_truthy}
use build_affiliate.Common.Result.{
  ok, >>=-eq-ok, ok-injective, or_throw-eq-ok, guard-eq-ok, guard, or_throw,
}
use build_affiliate.Lifecycle.Payout.{
  PayoutStatus, pending, failed, cancelled, processing, paid, same_status, can_transition_payout,
  releases_commissions, settles_commissions,
}
use build_affiliate.Ledger.Tables.{
  Store, Payout, Commission, record_missing, payout_not_found, invalid_transition, reason_required,
  payout_paid,
}
use build_affiliate.Ledger.Rows.{included_in, is_id}
use build_affiliate.Ledger.Outbox.{enqueue_notification, enqueue_webhook_event}
use build_affiliate.Ledger.Transition.{
  TransitionOptions, move_commissions, move_payout, write_transition, plan_transition,
  commit_transition, transition, notify_transition, emit_shares, emit_payout_completed, BrandShare,
  brand_shares,
}
use build_affiliate.Ledger.Transition.Effects.{released, paid_all, owed, paid_out, included_for}

-- Telling others writes to the outbox tables only.
abbrev pub SameMoney : Store → Store → Type 0
SameMoney s t =
    (s.commissions ≡ t.commissions) × (s.payouts ≡ t.payouts) × (s.adjustments ≡ t.adjustments)

emit_shares-SameMoney :
    (now payout affiliate : ℕ) (at_ : Option ℕ) (bs : List BrandShare) (s : Store)
    → SameMoney (emit_shares now payout affiliate at_ bs s) s
unfolding emit_shares enqueue_webhook_event
emit_shares-SameMoney now payout affiliate at_ [] s = (refl, refl, refl)
emit_shares-SameMoney now payout affiliate at_ (b ∷ bs) s =
    emit_shares-SameMoney now payout affiliate at_ bs _

emit_payout_completed-SameMoney :
    (now payout affiliate : ℕ) (at_ : Option ℕ) (s : Store)
    → SameMoney (emit_payout_completed now payout affiliate at_ s) s
unfolding emit_payout_completed
emit_payout_completed-SameMoney now payout affiliate at_ s =
    emit_shares-SameMoney now payout affiliate at_
      (brand_shares s.campaigns (filter (λ c. is_id payout c.payout_id) s.commissions) []) s

notify-SameMoney :
    (to : PayoutStatus) (now : ℕ) (read updated : Payout) (opts : TransitionOptions) (s : Store)
    → SameMoney (notify_transition to now read updated opts s) s
unfolding enqueue_notification
notify-SameMoney paid now read updated opts s =
    emit_payout_completed-SameMoney now read.id read.affiliate_id updated.paid_at (
      enqueue_notification
        (record {
          user_id = read.affiliate_id;
          type = payout_paid;
          subject_id = read.id;
          order_id = none;
          amount = updated.net_amount;
          reason = opts.reason;
        })
        s)
notify-SameMoney failed now read updated opts s = (refl, refl, refl)
notify-SameMoney _ now read updated opts s = (refl, refl, refl)

-- What a commit has done, given the payout that was read before it.
pub record Committed (s : Store) (read : Payout) (to : PayoutStatus) (opts : TransitionOptions)
    (now : ℕ) (s' : Store) (p' : Payout) : Type 0 where
  pub commissions : s'.commissions ≡ move_commissions to read.id now s.commissions
  pub payouts : s'.payouts ≡ update_where (λ p. p.id == read.id) (move_payout to opts now) s.payouts
  pub adjustments : s'.adjustments ≡ s.adjustments
  pub id : p'.id ≡ read.id
  pub status : p'.status ≡ to

pub commit-Committed :
    (s : Store) (read : Payout) (to : PayoutStatus) (opts : TransitionOptions) (now : ℕ)
    {s' : Store} {p' : Payout}
    → commit_transition s read to opts now ≡ ok (s', p')
    → Committed s read to opts now s' p'
unfolding commit_transition write_transition move_payout
commit-Committed s read to opts now {s'} {p'} h =
    let (row, found, rest) =
      >>=-eq-ok (or_throw (find (λ p. p.id == read.id) s.payouts) record_missing) _ h in
    let (commissions, payouts, adjustments) =
      notify-SameMoney to now read (move_payout to opts now row) opts
        (write_transition s read to opts now) in
    let row_id =
      find-holds (λ p. p.id == read.id) s.payouts (or_throw-eq-ok _ record_missing found) in
    subst (λ (q : Store × Payout). Committed s read to opts now q.0 q.1) (ok-injective rest)
      (record {
        commissions = commissions;
        payouts = payouts;
        adjustments = adjustments;
        id = (==_iff row.id read.id).0 row_id;
        status = refl;
      })

-- The guards of a transition that succeeds: the payout exists, its status has an edge to the new one,
-- and a failure has a reason.
pub record Allowed (s : Store) (payout_id : ℕ) (to : PayoutStatus) (opts : TransitionOptions)
    (read : Payout) : Type 0 where
  pub found : find (λ p. p.id == payout_id) s.payouts ≡ some read
  pub id : read.id ≡ payout_id
  pub edge : can_transition_payout read.status to ≡ true
  pub reason : to ≡ failed → is_truthy opts.reason ≡ true

plan-Allowed :
    (s : Store) (payout_id : ℕ) (to : PayoutStatus) (opts : TransitionOptions) {read : Payout}
    → plan_transition s payout_id to opts ≡ ok read
    → Allowed s payout_id to opts read
unfolding plan_transition
plan-Allowed s payout_id to opts {read} h =
    let (row, found, rest) =
      >>=-eq-ok (or_throw (find (λ p. p.id == payout_id) s.payouts) payout_not_found) _ h in
    let (_, edge, rest') =
      >>=-eq-ok (guard (can_transition_payout row.status to) invalid_transition) _ rest in
    let (_, reason, done) =
      >>=-eq-ok (guard (not (same_status to failed && not (is_truthy opts.reason))) reason_required)
        _ rest' in
    let found' = or_throw-eq-ok _ payout_not_found found in
    subst (λ (q : Payout). Allowed s payout_id to opts q) (ok-injective done)
      (record {
        found = found';
        id = (==_iff row.id payout_id).0 (find-holds (λ p. p.id == payout_id) s.payouts found');
        edge = guard-eq-ok _ invalid_transition edge;
        reason = λ e. ground (arith, guard-eq-ok _ reason_required reason);
      })

-- A successful transition: what was read is an allowed move, and the tables are those of its commit.
pub transition_parts :
    (s : Store) (payout_id : ℕ) (to : PayoutStatus) (opts : TransitionOptions) (now : ℕ)
    {s' : Store} {p' : Payout}
    → transition s payout_id to opts now ≡ ok (s', p')
    → (read : Payout) × Allowed s payout_id to opts read × Committed s read to opts now s' p'
unfolding transition
transition_parts s payout_id to opts now h =
    let (read, planned, committed) = >>=-eq-ok (plan_transition s payout_id to opts) _ h in
    (read, plan-Allowed s payout_id to opts planned, commit-Committed s read to opts now committed)

abbrev Balanced : PayoutStatus → ℕ → ℕ → List Commission → List Commission → Type 0
Balanced to payout affiliate cs cs' =
    (releases_commissions to ≡ true
      → (owed affiliate cs' ≡ owed affiliate cs)
        × (paid_out affiliate cs' ≡ paid_out affiliate cs)
        × (count (included_in payout) cs' ≡ 0))
    × (settles_commissions to ≡ true
        → (owed affiliate cs' + included_for payout affiliate cs ≡ owed affiliate cs)
          × (paid_out affiliate cs' ≡ paid_out affiliate cs + included_for payout affiliate cs)
          × (count (included_in payout) cs' ≡ 0))
    × (to ≡ processing → cs' ≡ cs)

move-Balanced :
    (to : PayoutStatus) (payout affiliate now : ℕ) (cs : List Commission)
    → Balanced to payout affiliate cs (move_commissions to payout now cs)
unfolding move_commissions releases_commissions settles_commissions
move-Balanced pending payout affiliate now cs = (λ h. cc, λ h. cc, λ h. cc)
move-Balanced processing payout affiliate now cs = (λ h. cc, λ h. cc, λ h. refl)
move-Balanced paid payout affiliate now cs =
    (λ h. cc, λ h. paid_all payout affiliate now cs, λ h. cc)
move-Balanced failed payout affiliate now cs = (λ h. released payout affiliate cs, λ h. cc, λ h. cc)
move-Balanced cancelled payout affiliate now cs =
    (λ h. released payout affiliate cs, λ h. cc, λ h. cc)

-- The balances of every affiliate after a transition. A failed or cancelled payout leaves what each
-- affiliate is owed and has been paid as it was; a paid one moves exactly the amount included in it
-- from owed to paid; in both cases no commission stays included in it. A payout that starts
-- processing changes no commission.
pub transition_balances :
    (s : Store) (payout_id affiliate : ℕ) (to : PayoutStatus) (opts : TransitionOptions) (now : ℕ)
    {s' : Store} {p' : Payout}
    → transition s payout_id to opts now ≡ ok (s', p')
    → (releases_commissions to ≡ true
        → (owed affiliate s'.commissions ≡ owed affiliate s.commissions)
          × (paid_out affiliate s'.commissions ≡ paid_out affiliate s.commissions)
          × (count (included_in payout_id) s'.commissions ≡ 0))
      × (settles_commissions to ≡ true
          → (owed affiliate s'.commissions + included_for payout_id affiliate s.commissions
              ≡ owed affiliate s.commissions)
            × (paid_out affiliate s'.commissions
                ≡ paid_out affiliate s.commissions + included_for payout_id affiliate s.commissions)
            × (count (included_in payout_id) s'.commissions ≡ 0))
      × (to ≡ processing → s'.commissions ≡ s.commissions)
transition_balances s payout_id affiliate to opts now {s'} h =
    let (read, allowed, committed) = transition_parts s payout_id to opts now h in
    let moved : s'.commissions ≡ move_commissions to payout_id now s.commissions =
      committed.commissions ∙ ap (λ (n : ℕ). move_commissions to n now s.commissions) allowed.id in
    subst (λ (cs : List Commission). Balanced to payout_id affiliate s.commissions cs) (sym moved)
      (move-Balanced to payout_id affiliate now s.commissions)
