-- ===== src/Ledger/Request/Handler.antt =====
-- What a successful payout request has done.
use Prim.Native.String.{String}
use mathlib.Core.Path.{subst, ap₂}
use build_affiliate.Common.{
  ℕ, ◌≤◌, ◌<◌, ◌≡◌, refl, false, not, Option, List, [], ◌∷◌, ◌++◌, any, filter, update_where, count,
  sum_of, length, leb, ◌==◌, arith, ap, filter-congr, update_where-congr, sym, ◌∙◌,
}
use build_affiliate.Common.Int.{ℤ, pos, negsuc, pos_part, ◌+ℤ◌}
use build_affiliate.Common.Ratio.{Ratio}
use build_affiliate.Common.Result.{ok, guard, >>=-eq-ok, ok-injective, guard-eq-ok}
use build_affiliate.Money.Fee.{calculate_payout_breakdown, IsPercent, breakdown_adds_up}
use build_affiliate.Ledger.Tables.{
  Store, Payout, PayoutMethod, Commission, payout_in_flight, no_approved, below_minimum,
  unique_violation, commissions_changed,
}
use build_affiliate.Ledger.Rows.{claimable, unsettled, is_open_for, amount_of, sum_adjustments}
use build_affiliate.Ledger.Request.{
  minimum_payout_amount, gross_of, new_payout, write_payout, create_payout, claim, claimed_rows,
  key_taken,
}
use build_affiliate.Ledger.Request.Claims.{NotAttached, claimed-claimable, claim_sums, all_settled}
use build_affiliate.Ledger.Transition.Effects.{owed, paid_out, included_for}

pub record Created (s : Store) (affiliate : ℕ) (fee_percent : Ratio) (s' : Store) (p : Payout)
    : Type 0 where
  pub id : p.id ≡ s.next_id
  pub none_open : any (is_open_for affiliate) s.payouts ≡ false
  pub amount :
      p.amount
      ≡ gross_of
          (filter (claimable affiliate) s.commissions)
          (filter (unsettled affiliate) s.adjustments)
  pub fee : p.fee_amount ≡ (calculate_payout_breakdown p.amount fee_percent).fee
  pub net : p.net_amount ≡ (calculate_payout_breakdown p.amount fee_percent).net
  pub minimum : minimum_payout_amount ≤ p.amount
  pub commissions : s'.commissions ≡ update_where (claimable affiliate) (claim p.id) s.commissions
  pub settled : count (unsettled affiliate) s'.adjustments ≡ 0
  pub payouts : s'.payouts ≡ s.payouts ++ p ∷ []

claimed_update :
    (affiliate payout : ℕ) (cs : List Commission)
    → update_where (claimed_rows affiliate (filter (claimable affiliate) cs)) (claim payout) cs
      ≡ update_where (claimable affiliate) (claim payout) cs
claimed_update affiliate payout cs =
    update_where-congr (claimed_rows affiliate (filter (claimable affiliate) cs))
      (claimable affiliate) (claim payout) cs (claimed-claimable affiliate cs)

-- The conflict check on the number of claimed rows never fires.
claimed_count :
    (affiliate : ℕ) (cs : List Commission)
    → count (claimed_rows affiliate (filter (claimable affiliate) cs)) cs
      ≡ length (filter (claimable affiliate) cs)
claimed_count affiliate cs = ap length (
    filter-congr (claimed_rows affiliate (filter (claimable affiliate) cs)) (claimable affiliate) cs
      (claimed-claimable affiliate cs))

pub create-Created :
    (s : Store) (affiliate : ℕ) (method : PayoutMethod) (key : Option String) (fee_percent : Ratio)
    {s' : Store} {p : Payout}
    → create_payout s affiliate method key fee_percent ≡ ok (s', p)
    → Created s affiliate fee_percent s' p
unfolding create_payout new_payout write_payout calculate_payout_breakdown
create-Created s affiliate method key fee_percent h =
    let approved = filter (claimable affiliate) s.commissions in
    let adjustments = filter (unsettled affiliate) s.adjustments in
    let gross = gross_of approved adjustments in
    let (_, closed, h1) =
      >>=-eq-ok (guard (not (any (is_open_for affiliate) s.payouts)) payout_in_flight) _ h in
    let (_, _, h2) = >>=-eq-ok (guard (not (length approved == 0)) no_approved) _ h1 in
    let (_, enough, h3) = >>=-eq-ok (guard (leb minimum_payout_amount gross) below_minimum) _ h2 in
    let (_, _, h4) =
      >>=-eq-ok (guard (not (key_taken s.payouts affiliate key)) unique_violation) _ h3 in
    let (_, _, done) =
      >>=-eq-ok
        (guard (count (claimed_rows affiliate approved) s.commissions == length approved)
          commissions_changed)
        _ h4 in
    let shut = guard-eq-ok (not (any (is_open_for affiliate) s.payouts)) payout_in_flight closed in
    let reached = guard-eq-ok (leb minimum_payout_amount gross) below_minimum enough in
    subst (λ (q : Store × Payout). Created s affiliate fee_percent q.0 q.1) (ok-injective done)
      (record {
        id = refl;
        none_open = ground arith;
        amount = refl;
        fee = refl;
        net = refl;
        minimum = ground arith;
        commissions = claimed_update affiliate s.next_id s.commissions;
        settled = all_settled affiliate s.next_id s.adjustments;
        payouts = refl;
      })

pos_of_part : (z : ℤ) → 0 < pos_part z → pos (pos_part z) ≡ z
pos_of_part (pos n) h = refl
pos_of_part (negsuc n) h = absurd (omega arith)

abbrev pub Sums : ℕ → ℕ → ℕ → List Commission → List Commission → Type 0
Sums affiliate other payout cs cs' =
    (owed other cs' ≡ owed other cs)
    × (paid_out other cs' ≡ paid_out other cs)
    × (included_for payout affiliate cs' ≡ sum_of amount_of (filter (claimable affiliate) cs))
    × (count (claimable affiliate) cs' ≡ 0)

pub Created-Sums :
    (s : Store) (affiliate other : ℕ) (fee_percent : Ratio) {s' : Store} {p : Payout}
    → NotAttached s.next_id s.commissions
    → Created s affiliate fee_percent s' p
    → Sums affiliate other p.id s.commissions s'.commissions
Created-Sums s affiliate other fee_percent {s'} {p} fresh made =
    let unused = subst (λ (n : ℕ). NotAttached n s.commissions) (sym made.id) fresh in
    subst (λ (cs : List Commission). Sums affiliate other p.id s.commissions cs)
      (sym made.commissions) (claim_sums affiliate other p.id s.commissions unused)

Created-amount :
    (s : Store) (affiliate : ℕ) (fee_percent : Ratio) {s' : Store} {p : Payout}
    → Created s affiliate fee_percent s' p
    → pos p.amount
      ≡ pos (sum_of amount_of (filter (claimable affiliate) s.commissions))
        +ℤ sum_adjustments (filter (unsettled affiliate) s.adjustments)
unfolding gross_of
Created-amount s affiliate fee_percent made =
    ap pos made.amount ∙ pos_of_part _ (omega (arith, made.amount, made.minimum))

-- A request that creates a payout, with ids that no commission refers to yet. The amount is what the
-- affiliate's approved commissions and unsettled adjustments add up to, at least the minimum, and
-- splits into fee and net; exactly the amount of the approved commissions is attached to the payout,
-- and every affiliate's owed and paid sums stay as they were. No approved commission and no unsettled
-- adjustment of the affiliate is left.
pub request_accounts :
    (s : Store) (affiliate other : ℕ) (method : PayoutMethod) (key : Option String)
    (fee_percent : Ratio) {s' : Store} {p : Payout}
    → IsPercent fee_percent
    → NotAttached s.next_id s.commissions
    → create_payout s affiliate method key fee_percent ≡ ok (s', p)
    → (pos p.amount
        ≡ pos (included_for p.id affiliate s'.commissions)
          +ℤ sum_adjustments (filter (unsettled affiliate) s.adjustments))
      × (minimum_payout_amount ≤ p.amount)
      × (p.net_amount +ℤ pos p.fee_amount ≡ pos p.amount)
      × (included_for p.id affiliate s'.commissions
          ≡ sum_of amount_of (filter (claimable affiliate) s.commissions))
      × (owed other s'.commissions ≡ owed other s.commissions)
      × (paid_out other s'.commissions ≡ paid_out other s.commissions)
      × (count (claimable affiliate) s'.commissions ≡ 0)
      × (count (unsettled affiliate) s'.adjustments ≡ 0)
request_accounts s affiliate other method key fee_percent {s'} {p} percent fresh h =
    let made = create-Created s affiliate method key fee_percent h in
    let (owes, pays, attached, none_left) = Created-Sums s affiliate other fee_percent fresh made in
    let (adds, _, _, _, _) = breakdown_adds_up p.amount fee_percent percent in
    (
      Created-amount s affiliate fee_percent made
          ∙ ap (λ (n : ℕ). pos n +ℤ sum_adjustments (filter (unsettled affiliate) s.adjustments))
              (sym attached),
      made.minimum,
      ap₂ (λ (z : ℤ) (n : ℕ). z +ℤ pos n) made.net made.fee ∙ adds,
      attached,
      owes,
      pays,
      none_left,
      made.settled,
    )
