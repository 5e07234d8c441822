-- ===== src/Ledger/Faults.antt =====
-- What happens when a payout fails: consequences of the handlers as they are written.
use Prim.Native.String.{String}
use build_affiliate.Common.{ℕ, ◌≡◌, refl, List, [], ◌∷◌, count, arith, ap, ◌∙◌}
use build_affiliate.Common.Ratio.{Ratio}
use build_affiliate.Common.Result.{ok}
use build_affiliate.Lifecycle.Payout.{
  failed, processing, paid, releases_commissions, settles_commissions,
}
use build_affiliate.Ledger.Tables.{Store, Payout, Commission}
use build_affiliate.Ledger.Rows.{included_in}
use build_affiliate.Ledger.Transition.{TransitionOptions, transition}
use build_affiliate.Ledger.Transition.Effects.{owed, paid_out, included_for}
use build_affiliate.Ledger.Transition.Handler.{transition_parts, transition_balances}

nothing_included :
    (payout affiliate : ℕ) (cs : List Commission)
    → count (included_in payout) cs ≡ 0
    → included_for payout affiliate cs ≡ 0
nothing_included payout affiliate [] h = refl
nothing_included payout affiliate (c ∷ cs) h = ground (arith, nothing_included payout affiliate cs)

-- A payout that fails, is retried and is completed ends as PAID, while every affiliate is owed as much
-- after the payment as before the payout failed, and counts as paid as much as then.
pub retry_pays_twice :
    (s : Store) (payout_id affiliate : ℕ) (opts₁ opts₂ opts₃ : TransitionOptions) (t₁ t₂ t₃ : ℕ)
    {s₁ s₂ s₃ : Store} {p₁ p₂ p₃ : Payout}
    → transition s payout_id failed opts₁ t₁ ≡ ok (s₁, p₁)
    → transition s₁ payout_id processing opts₂ t₂ ≡ ok (s₂, p₂)
    → transition s₂ payout_id paid opts₃ t₃ ≡ ok (s₃, p₃)
    → (p₃.status ≡ paid)
      × (owed affiliate s₃.commissions ≡ owed affiliate s.commissions)
      × (paid_out affiliate s₃.commissions ≡ paid_out affiliate s.commissions)
unfolding releases_commissions settles_commissions
retry_pays_twice s payout_id affiliate opts₁ opts₂ opts₃ t₁ t₂ t₃ {s₁} {s₂} {s₃} fail retry
      complete =
    let (owed₁, paid₁, none₁) =
      (transition_balances s payout_id affiliate failed opts₁ t₁ fail).0 refl in
    let same = (transition_balances s₁ payout_id affiliate processing opts₂ t₂ retry).2 refl in
    let (owed₃, paid₃, none₃) =
      (transition_balances s₂ payout_id affiliate paid opts₃ t₃ complete).1 refl in
    let zero_ : included_for payout_id affiliate s₂.commissions ≡ 0 =
      ap (λ (cs : List Commission). included_for payout_id affiliate cs) same
      ∙ nothing_included payout_id affiliate s₁.commissions none₁ in
    let owed₂ = ap (λ (cs : List Commission). owed affiliate cs) same in
    let paid₂ = ap (λ (cs : List Commission). paid_out affiliate cs) same in
    ((transition_parts s₂ payout_id paid opts₃ t₃ complete).2.status, omega arith, omega arith)
