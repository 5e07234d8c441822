-- ===== src/Session/Families.antt =====
-- What every interleaving of the logins keeps: one live token for a family, and none once it has been
-- revoked with no rotation of it in flight.
use build_affiliate.Common.{
  ℕ, suc, ◌+◌, ◌≤◌, ◌<◌, ◌≡◌, refl, Bool, not, some, List, [], ◌∷◌, ◌++◌, find, filter, count,
  update_where, ◌==◌, ◌&&◌, arith, Bool-cases, inl, inr, ◌⊎◌,
}
use build_affiliate.Ledger.Rows.{is_null}
use build_affiliate.Session.Tables.{
  RefreshToken, insert_token, is_claimable, rotate_row, revoke_row, claim_for_rotation,
  revoke_family, revoke_all_for_user, delete_settled, is_settled,
}
use build_affiliate.Session.Steps.{
  System, Step, start, claim, succeed, give_up, revoke, revoke_all, sweep, change_accounts, Reaches,
  here, next, no_logins, is_live, live_tokens,
}

-- One for a family that is the given one.
abbrev pub weight : ℕ → ℕ → ℕ
weight family f = count (λ g. g == family) (f ∷ [])

claim_le :
    (family id now : ℕ) (ts : List RefreshToken)
    → count (is_live family) (update_where (is_claimable id) (rotate_row now) ts)
      ≤ count (is_live family) ts
claim_le family id now [] = omega arith
claim_le family id now (u ∷ ts) = ground (arith, claim_le family id now ts)

claim_drop :
    (family id now : ℕ) (ts : List RefreshToken) {t : RefreshToken}
    → find (is_claimable id) ts ≡ some t
    → count (is_live family) (update_where (is_claimable id) (rotate_row now) ts)
        + weight family t.family_id
      ≤ count (is_live family) ts
claim_drop family id now [] h = cc
claim_drop family id now (u ∷ ts) {t} h =
    ground (arith, claim_le family id now ts, claim_drop family id now ts {t = t})

revoke_drop :
    (family now : ℕ) (p : RefreshToken → Bool) (ts : List RefreshToken)
    → count (is_live family) (update_where p (revoke_row now) ts) ≤ count (is_live family) ts
revoke_drop family now p [] = omega arith
revoke_drop family now p (t ∷ ts) = ground (arith, revoke_drop family now p ts)

sweep_drop :
    (family : ℕ) (p : RefreshToken → Bool) (ts : List RefreshToken)
    → count (is_live family) (filter p ts) ≤ count (is_live family) ts
sweep_drop family p [] = omega arith
sweep_drop family p (t ∷ ts) = ground (arith, sweep_drop family p ts)

without :
    (family f : ℕ) (before after : List ℕ)
    → count (λ g. g == family) (before ++ (f ∷ after))
      ≡ weight family f + count (λ g. g == family) (before ++ after)
without family f [] after = ground arith
without family f (g ∷ before) after = ground (arith, without family f before after)

-- A step takes no family further than it was, but the one that it starts.
step_live :
    {l m : System} (family : ℕ)
    → Step l m
    → (live_tokens family m ≤ live_tokens family l)
      ⊎ ((l.next_family ≤ family)
          × (family < m.next_family)
          × (live_tokens family m ≤ suc (live_tokens family l)))
unfolding live_tokens insert_token claim_for_rotation revoke_family revoke_all_for_user
    delete_settled
step_live family (start l d now new_) = elim (Bool-cases (d.family_id == family)) [
  | inl same_ ↦ inr (ground arith)
  | inr other_ ↦ inl (ground arith)
]
step_live family (claim l id now {t} found) =
    inl (ground (arith, claim_drop family id now l.store.tokens found))
step_live family (succeed l before after d now split_) =
    inl (rw split_ (ground (arith, without family d.family_id before after)))
step_live family (give_up l before after f split_) =
    inl (rw split_ (ground (arith, without family f before after)))
step_live family (revoke l f now) = inl (
    omega (
      arith,
      revoke_drop family now (λ t. t.family_id == f && is_null t.revoked_at) l.store.tokens,
    ))
step_live family (revoke_all l user now) = inl (
    omega (
      arith,
      revoke_drop family now (λ t. t.user_id == user && is_null t.revoked_at) l.store.tokens,
    ))
step_live family (sweep l before) =
    inl (omega (arith, sweep_drop family (λ t. not (is_settled before t)) l.store.tokens))
step_live family (change_accounts l accounts next_id grows) = inl (omega arith)

step_next : {l m : System} → Step l m → l.next_family ≤ m.next_family
step_next (start l d now new_) = omega arith
step_next (claim l id now {t} found) = omega arith
step_next (succeed l before after d now split_) = omega arith
step_next (give_up l before after f split_) = omega arith
step_next (revoke l f now) = omega arith
step_next (revoke_all l user now) = omega arith
step_next (sweep l before) = omega arith
step_next (change_accounts l accounts next_id grows) = omega arith

-- A family has at most one token that can be rotated or is about to come, and one that has not been
-- drawn has none.
abbrev pub IsSound : System → ℕ → Type 0
IsSound l family = (live_tokens family l ≤ 1) × (l.next_family ≤ family → live_tokens family l ≡ 0)

step-IsSound : {l m : System} (family : ℕ) → Step l m → IsSound l family → IsSound m family
step-IsSound {l} {m} family step h = elim (step_live family step) [
  | inl less ↦ (
    omega (arith, h.0),
    λ late. omega (arith, less, late, step_next step, h.1 (omega (arith, late, step_next step))),
  )
  | inr grown ↦ (omega (arith, grown.1, h.1 grown.0), λ late. omega (arith, late, grown.1))
]

-- Whatever requests come, and however their writes interleave, at most one token of a family can be
-- rotated, counting the successors that are about to be inserted.
pub one_live_token : {l : System} (family : ℕ) → Reaches no_logins l → live_tokens family l ≤ 1
unfolding live_tokens
one_live_token family reached = (sound reached).0
  where
    sound : {l : System} → Reaches no_logins l → IsSound l family
    sound here = (omega arith, λ late. refl)
    sound (next r step) = step-IsSound family step (sound r)

-- The family has been drawn, and nothing of it is live.
abbrev pub IsOver : ℕ → System → Type 0
IsOver family l = (family < l.next_family) × (live_tokens family l ≡ 0)

pub step-IsOver : {l m : System} (family : ℕ) → Step l m → IsOver family l → IsOver family m
step-IsOver {l} {m} family step h = elim (step_live family step) [
  | inl less ↦ (omega (arith, h.0, step_next step), omega (arith, less, h.1))
  | inr grown ↦ omega (arith, grown.0, h.0)
]

pub Reaches-IsOver : {l m : System} (family : ℕ) → Reaches l m → IsOver family l → IsOver family m
Reaches-IsOver family here h = h
Reaches-IsOver family (next r step) h = step-IsOver family step (Reaches-IsOver family r h)

-- A revocation leaves no live token; what is in flight is what is left.
pub revoked_live :
    (family now : ℕ) (ts : List RefreshToken)
    → count
        (is_live family)
        (update_where (λ t. t.family_id == family && is_null t.revoked_at) (revoke_row now) ts)
      ≡ 0
revoked_live family now [] = refl
revoked_live family now (t ∷ ts) = ground (arith, revoked_live family now ts)
