-- ===== src/Ledger/Reverse/Kept.antt =====
-- What an affiliate keeps of a conversion when `reverse` of conversion.service.ts runs on it, once
-- and many times over.
use mathlib.Core.Option
use build_affiliate.Common.{
  ℕ, ◌+◌, ◌≡◌, refl, true, false, Option, none, some, List, [], ◌∷◌, ◌++◌, find, update_where, ◌==◌,
  if◌then◌else◌, arith, Bool-cases, inl, inr, ap, ◌∙◌, sym, find-update_where,
}
use build_affiliate.Common.Int.{ℤ, pos, ◌+ℤ◌, ◌-ℤ◌, int_laws, +ℤ_comm, +ℤ_assoc}
use build_affiliate.Common.Result.{ok, err}
use build_affiliate.Money.Refund.{RefundOutcome, refund_splits}
use build_affiliate.Ledger.Tables.{
  Store, Conversion, ConversionStatus, Commission, CommissionStatus, BalanceAdjustment, LedgerError,
  paid,
}
use build_affiliate.Ledger.Rows.{same_conversion_status, same_commission_status, sum_adjustments}
use build_affiliate.Ledger.Reverse.{
  ReverseInput, refund_of, reverse_conversion, clawback, ClawbackMethod, reverse_locked,
}
use build_affiliate.Ledger.Reverse.Laws.{IsAmount, reverse-Reversed}

-- The commission that an approved conversion stands for.
abbrev pub worth : Option Conversion → ℕ
worth none = 0
worth (some v) =
    if same_conversion_status v.status ConversionStatus.approved then v.commission_amount else 0

abbrev pub kept : ℕ → Store → ℕ
kept id s = worth (find (λ v. v.id == id) s.conversions)

reverse_conversion-id :
    (o : RefundOutcome) (input : ReverseInput) (now : ℕ) (v : Conversion)
    → (reverse_conversion o input now v).id ≡ v.id
unfolding reverse_conversion
reverse_conversion-id o input now v = ground arith

reversed-found :
    (o : RefundOutcome) (input : ReverseInput) (now id : ℕ) (cs : List Conversion) {v : Conversion}
    → find (λ v. v.id == id) cs ≡ some v
    → find (λ v. v.id == id) (update_where (λ v. v.id == id) (reverse_conversion o input now) cs)
      ≡ some (reverse_conversion o input now v)
reversed-found o input now id cs h =
    find-update_where (λ v. v.id == id) (reverse_conversion o input now) cs
      (λ v. ap (λ (n : ℕ). n == id) (reverse_conversion-id o input now v))
    ∙ ap (Option.map (reverse_conversion o input now)) h

worth-reverse_conversion :
    (o : RefundOutcome) (input : ReverseInput) (now : ℕ) (v : Conversion)
    → same_conversion_status v.status ConversionStatus.approved ≡ true
    → o.remaining_commission + o.clawback_amount ≡ v.commission_amount
    → (o.is_full_refund ≡ true → o.clawback_amount ≡ v.commission_amount)
    → worth (some (reverse_conversion o input now v)) + o.clawback_amount ≡ worth (some v)
unfolding reverse_conversion
worth-reverse_conversion o input now v h k all = elim (Bool-cases o.is_full_refund) [
  | inl full_ ↦ rw (full_, h) (omega (arith, all full_))
  | inr part_ ↦ rw (part_, h) k
]

worth_of :
    (v : Conversion)
    → same_conversion_status v.status ConversionStatus.approved ≡ true
    → worth (some v) ≡ v.commission_amount
worth_of v h = rw h refl

sum_adjustments-append_one :
    (as_ : List BalanceAdjustment) (a : BalanceAdjustment)
    → sum_adjustments (as_ ++ a ∷ []) ≡ sum_adjustments as_ +ℤ a.amount
sum_adjustments-append_one [] a = +ℤ_comm a.amount (pos 0)
sum_adjustments-append_one (b ∷ as_) a =
    ap (λ (x : ℤ). b.amount +ℤ x) (sum_adjustments-append_one as_ a)
    ∙ sym (+ℤ_assoc b.amount (sum_adjustments as_) a.amount)

add_negated : (a b : ℤ) → a +ℤ (pos 0 -ℤ b) ≡ a -ℤ b
add_negated a b = omega int_laws

-- A reversal takes the reported clawback, and nothing else, off what the conversion is worth to the
-- affiliate. If the commission has been paid, no commission changes and the clawback is subtracted
-- from the balance adjustments. If it has not, no adjustment changes and no other commission does: a
-- full refund makes it CLAWED_BACK, and a partial one leaves it the worth less the clawback, with its
-- status as it was. The refunded amount has a positive denominator.
pub reversal_conserves :
    (s : Store) (brand id : ℕ) (input : ReverseInput) (now : ℕ) {s' : Store} {o : RefundOutcome}
    {m : ClawbackMethod}
    → IsAmount input
    → reverse_locked s brand id input now ≡ ok (s', o, m)
    → (kept id s' + o.clawback_amount ≡ kept id s)
      × ((c : Commission) × (find (λ k. k.conversion_id == id) s.commissions ≡ some c)
          × (same_commission_status c.status paid ≡ true
              → (s'.commissions ≡ s.commissions)
                × (sum_adjustments s'.adjustments
                    ≡ sum_adjustments s.adjustments -ℤ pos o.clawback_amount))
          × (same_commission_status c.status paid ≡ false
              → (s'.adjustments ≡ s.adjustments)
                × (o.is_full_refund ≡ true
                    → s'.commissions
                      ≡ update_where
                          (λ k. k.id == c.id)
                          (λ k. record k { status = CommissionStatus.clawed_back })
                          s.commissions)
                × (o.is_full_refund ≡ false
                    → (rest : ℕ) × (rest + o.clawback_amount ≡ kept id s)
                      × (s'.commissions
                          ≡ update_where
                              (λ k. k.id == c.id)
                              (λ k. record k { amount = rest })
                              s.commissions))))
unfolding clawback
reversal_conserves s brand id input now {s'} {o} {m} amount h =
    let (conv, c, r) = reverse-Reversed s brand id input now h in
    let (adds, _, all, _) =
      refund_splits conv.conversion_value conv.commission_amount
        (refund_of input.refund_amount conv.conversion_value) (amount conv.conversion_value)
        r.outcome in
    let same_before = ap worth r.found in
    let same_after =
      ap (λ (cs : List Conversion). worth (find (λ v. v.id == id) cs)) r.conversions
      ∙ ap worth (reversed-found o input now id s.conversions r.found) in
    let step = worth-reverse_conversion o input now conv r.approved adds all in
    (
      ap (λ (n : ℕ). n + o.clawback_amount) same_after ∙ step ∙ sym same_before,
      (
        c,
        r.commission,
        (λ is_paid. (
          rw is_paid at r.commissions,
          ap (λ (as_ : List BalanceAdjustment). sum_adjustments as_) (rw is_paid at r.adjustments)
              ∙ sum_adjustments-append_one s.adjustments (clawback s.next_id conv o)
              ∙ add_negated (sum_adjustments s.adjustments) (pos o.clawback_amount),
        )),
        (λ unpaid.
            let changed = rw unpaid at r.commissions in
            (
              rw unpaid at r.adjustments,
              (λ full_. rw full_ at changed),
              (λ part_. (
                o.remaining_commission,
                adds ∙ sym (worth_of conv r.approved) ∙ sym same_before,
                rw part_ at changed,
              )),
            )),
      ),
    )

-- Successive successful reversals of one conversion, and the total that they take back.
pub data Reversals (id : ℕ) : Store → Store → ℕ → Type 0 where
  none_yet : {s : Store} → Reversals id s s 0
  then_one :
      {s t u : Store} {total : ℕ} {o : RefundOutcome} {m : ClawbackMethod}
      → Reversals id s t total
      → (brand : ℕ) (input : ReverseInput) (now : ℕ) → IsAmount input
      → reverse_locked t brand id input now ≡ ok (u, o, m)
      → Reversals id s u (total + o.clawback_amount)

-- However often a conversion is refunded in part or in full, by amounts with positive denominators, what the reversals take back and what
-- the affiliate still keeps add up to what the conversion was worth before the first.
pub Reversals-bounded :
    (id : ℕ) {s t : Store} {total : ℕ} → Reversals id s t total → kept id t + total ≡ kept id s
Reversals-bounded id none_yet = omega arith
Reversals-bounded id (then_one {total = total} {o = o} before brand input now amount h) =
    omega (arith, Reversals-bounded id before, (reversal_conserves _ brand id input now amount h).0)

full-not_approved :
    (o : RefundOutcome) (input : ReverseInput) (now : ℕ) (v : Conversion)
    → o.is_full_refund ≡ true
    → same_conversion_status (reverse_conversion o input now v).status ConversionStatus.approved
      ≡ false
unfolding reverse_conversion
full-not_approved o input now v h = rw h refl

-- A conversion that was refunded in full is not reversed again, however much is asked.
full_refund_once :
    (s : Store) (brand id : ℕ) (input : ReverseInput) (now : ℕ) (brand' : ℕ) (input' : ReverseInput)
    (now' : ℕ) {s' : Store} {o : RefundOutcome} {m : ClawbackMethod}
    → o.is_full_refund ≡ true
    → reverse_locked s brand id input now ≡ ok (s', o, m)
    → reverse_locked s' brand' id input' now' ≡ err LedgerError.not_approved
unfolding reverse_locked
full_refund_once s brand id input now brand' input' now' {s'} {o} {m} full h =
    let (conv, c, r) = reverse-Reversed s brand id input now h in
    let found =
      ap (λ (cs : List Conversion). find (λ v. v.id == id) cs) r.conversions
      ∙ reversed-found o input now id s.conversions r.found in
    rw (found, full-not_approved o input now conv full) refl
