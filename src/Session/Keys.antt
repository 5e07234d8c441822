-- ===== src/Session/Keys.antt =====
-- The ids of the tokens are a primary key in every interleaving of the logins.
use build_affiliate.Common.{
  ℕ, ◌≤◌, ◌≡◌, refl, Bool, not, List, [], ◌∷◌, filter, count, update_where, ◌==◌, arith,
}
use build_affiliate.Session.Tables.{
  RefreshToken, TokenStore, insert_token, is_claimable, rotate_row, revoke_row, claim_for_rotation,
  revoke_family, revoke_all_for_user, delete_settled, is_settled,
}
use build_affiliate.Session.Steps.{
  System, Step, start, claim, succeed, give_up, revoke, revoke_all, sweep, change_accounts, Reaches,
  here, next,
}

abbrev pub has_id : ℕ → RefreshToken → Bool
has_id id t = t.id == id

-- One row for an id, and none for an id that has not been given out.
abbrev pub IsKeyed : TokenStore → Type 0
IsKeyed s =
    (id : ℕ) → (count (has_id id) s.tokens ≤ 1) × (s.next_id ≤ id → count (has_id id) s.tokens ≡ 0)

update_ids :
    (id : ℕ) (p : RefreshToken → Bool) (f : RefreshToken → RefreshToken) (ts : List RefreshToken)
    → ((t : RefreshToken) → has_id id (f t) ≡ has_id id t)
    → count (has_id id) (update_where p f ts) ≡ count (has_id id) ts
update_ids id p f [] h = refl
update_ids id p f (t ∷ ts) h = ground (arith, h t, update_ids id p f ts h)

filter_ids :
    (id : ℕ) (p : RefreshToken → Bool) (ts : List RefreshToken)
    → count (has_id id) (filter p ts) ≤ count (has_id id) ts
filter_ids id p [] = omega arith
filter_ids id p (t ∷ ts) = ground (arith, filter_ids id p ts)

step-IsKeyed : {l m : System} → Step l m → IsKeyed l.store → IsKeyed m.store
unfolding insert_token claim_for_rotation revoke_family revoke_all_for_user delete_settled
step-IsKeyed (start l d now new_) h id = (ground (arith, h id), λ late. ground (arith, h id))
step-IsKeyed (claim l other now found) h id =
    rw (update_ids id (is_claimable other) (rotate_row now) l.store.tokens (λ t. refl)) (h id)
step-IsKeyed (succeed l before after d now split_) h id =
    (ground (arith, h id), λ late. ground (arith, h id))
step-IsKeyed (give_up l before after f split_) h id = h id
step-IsKeyed (revoke l f now) h id =
    rw (update_ids id _ (revoke_row now) l.store.tokens (λ t. refl)) (h id)
step-IsKeyed (revoke_all l user now) h id =
    rw (update_ids id _ (revoke_row now) l.store.tokens (λ t. refl)) (h id)
step-IsKeyed (sweep l before) h id =
    let less = filter_ids id (λ t. not (is_settled before t)) l.store.tokens in
    (omega (arith, less, (h id).0), λ late. omega (arith, less, (h id).1 late))
step-IsKeyed (change_accounts l accounts next_id grows) h id =
    ((h id).0, λ late. (h id).1 (omega (arith, grows, late)))

pub Reaches-IsKeyed : {l m : System} → Reaches l m → IsKeyed l.store → IsKeyed m.store
Reaches-IsKeyed here h = h
Reaches-IsKeyed (next r step) h = step-IsKeyed step (Reaches-IsKeyed r h)
