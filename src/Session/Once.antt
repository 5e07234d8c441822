-- ===== src/Session/Once.antt =====
-- A token is rotated once: after a claim, no interleaving lets it be claimed again.
use build_affiliate.Common.{
  ℕ, ◌≤◌, ◌<◌, ◌≡◌, refl, Bool, ◌&&◌, not, List, [], ◌∷◌, filter, count, update_where, ◌==◌, arith,
}
use build_affiliate.Ledger.Rows.{is_null}
use build_affiliate.Session.Tables.{
  RefreshToken, TokenStore, insert_token, is_claimable, rotate_row, revoke_row, claim_for_rotation,
  claimed_count, revoke_family, revoke_all_for_user, delete_settled, is_settled,
}
use build_affiliate.Session.Steps.{
  System, Step, start, claim, succeed, give_up, revoke, revoke_all, sweep, change_accounts, Reaches,
  here, next,
}

claim_spent :
    (id other now : ℕ) (ts : List RefreshToken)
    → count (is_claimable id) (update_where (is_claimable other) (rotate_row now) ts)
      ≤ count (is_claimable id) ts
claim_spent id other now [] = omega arith
claim_spent id other now (t ∷ ts) = ground (arith, claim_spent id other now ts)

revoke_spent :
    (id now : ℕ) (p : RefreshToken → Bool) (ts : List RefreshToken)
    → count (is_claimable id) (update_where p (revoke_row now) ts) ≤ count (is_claimable id) ts
revoke_spent id now p [] = omega arith
revoke_spent id now p (t ∷ ts) = ground (arith, revoke_spent id now p ts)

sweep_spent :
    (id : ℕ) (p : RefreshToken → Bool) (ts : List RefreshToken)
    → count (is_claimable id) (filter p ts) ≤ count (is_claimable id) ts
sweep_spent id p [] = omega arith
sweep_spent id p (t ∷ ts) = ground (arith, sweep_spent id p ts)

spent :
    (id now : ℕ) (ts : List RefreshToken)
    → count (is_claimable id) (update_where (is_claimable id) (rotate_row now) ts) ≡ 0
spent id now [] = refl
spent id now (t ∷ ts) = ground (arith, spent id now ts)

-- The id has been given out, and its row, if it is still there, may not be rotated.
abbrev pub IsSpent : ℕ → TokenStore → Type 0
IsSpent id s = (id < s.next_id) × (claimed_count id s ≡ 0)

step-IsSpent : {l m : System} (id : ℕ) → Step l m → IsSpent id l.store → IsSpent id m.store
unfolding claimed_count insert_token claim_for_rotation revoke_family revoke_all_for_user
    delete_settled
step-IsSpent id (start l d now new_) h = (omega (arith, h.0), ground arith)
step-IsSpent id (claim l other now found) h =
    (h.0, omega (arith, h.1, claim_spent id other now l.store.tokens))
step-IsSpent id (succeed l before after d now split_) h = (omega (arith, h.0), ground arith)
step-IsSpent id (give_up l before after f split_) h = h
step-IsSpent id (revoke l f now) h = (
  h.0,
  omega (
    arith,
    h.1,
    revoke_spent id now (λ t. t.family_id == f && is_null t.revoked_at) l.store.tokens,
  ),
)
step-IsSpent id (revoke_all l user now) h = (
  h.0,
  omega (
    arith,
    h.1,
    revoke_spent id now (λ t. t.user_id == user && is_null t.revoked_at) l.store.tokens,
  ),
)
step-IsSpent id (sweep l before) h =
    (h.0, omega (arith, h.1, sweep_spent id (λ t. not (is_settled before t)) l.store.tokens))
step-IsSpent id (change_accounts l accounts next_id grows) h = (omega (arith, h.0, grows), h.1)

-- A token that has been claimed is never claimed again: of two rotations of one token, with any
-- writes of any requests between them, the later one updates no row.
pub claimed_once :
    (l : System) {m : System} (id now : ℕ)
    → id < l.store.next_id
    → Reaches (record l { store = claim_for_rotation id now l.store }) m
    → claimed_count id m.store ≡ 0
unfolding claimed_count claim_for_rotation
claimed_once l id now given reached = (kept reached).1
  where
    kept :
        {n : System}
        → Reaches (record l { store = claim_for_rotation id now l.store }) n
        → IsSpent id n.store
    kept here = (given, spent id now l.store.tokens)
    kept (next r step) = step-IsSpent id step (kept r)
