-- ===== src/Session/Runs.antt =====
-- The calls of auth.service.ts are runs of the steps: what holds of every interleaving of the writes
-- holds of the calls.
use build_affiliate.Common.{
  ℕ, suc, ◌≤◌, ◌≡◌, refl, sym, true, some, List, [], ◌∷◌, find, ◌==◌, arith, Bool-cases,
  Option-cases, count-find, find_unique, find-holds, update_where-none, ap, ◌∙◌, inl, inr, ◌⊎◌, leb,
}
use build_affiliate.Common.Result.{Result, ok, err}
use build_affiliate.Session.Tables.{
  Account, RefreshToken, TokenStore, NewToken, AuthError, insert_token, create_token, find_by_hash,
  find_by_id, is_claimable, is_hash, rotate_row, count_rotations_after, claim_for_rotation,
  claimed_count, unique_violation,
}
use build_affiliate.Session.Token.{Token, RefreshPayload, Crypto, verify_refresh_token}
use build_affiliate.Session.Service.{
  TokenContext, TokenPair, minted, minted_row, minted_pair, issued, issue_tokens, replay,
  issue_successor, rotate, refresh_stored, refresh,
}
use build_affiliate.Session.Keys.{IsKeyed, has_id}
use build_affiliate.Session.Steps.{
  start, claim, succeed, give_up, revoke, Reaches, here, next, then-Reaches, system,
}

claimable_id : (id : ℕ) (t : RefreshToken) → is_claimable id t ≡ true → has_id id t ≡ true
claimable_id id t h = ground arith

module _ (w : Crypto) (now : ℕ) (ctx : TokenContext) (user : Account) (family jti : ℕ)
    (s : TokenStore) where
  -- A pair is issued with one new row of the family, or nothing is written.
  pub issue_cases :
      ((e : AuthError) × (issue_tokens w now ctx user family jti s ≡ err e))
      ⊎ ((d : NewToken) × (pair : TokenPair) × (d.family_id ≡ family)
          × (issue_tokens w now ctx user family jti s ≡ ok (insert_token d now s, pair)))
  unfolding issue_tokens create_token
  issue_cases = elim (Option-cases (find_by_hash (w.hash_token (minted w now user family jti)) s)) [
    | inl new_ ↦ inr (
      minted_row w now ctx user family jti,
      minted_pair w now user family jti,
      refl,
      rw (issue_tokens, create_token, new_) refl,
    )
    | inr (t, taken_) ↦ inl (unique_violation, rw (issue_tokens, create_token, taken_) refl)
  ]

  -- A new family is started, or nothing is written.
  pub issued_start :
      (claims : List ℕ) (n : ℕ)
      → n ≤ family
      → (m : ℕ) × Reaches
          (system s claims n)
          (system (issued s (issue_tokens w now ctx user family jti s)).0 claims m)
  issued_start claims n new_ = elim issue_cases [
    | inl (e, failed_) ↦ (n, rw failed_ here)
    | inr (d, pair, same_, made) ↦
        (suc d.family_id, rw made (next here (start (system s claims n) d now (rw same_ new_))))
  ]

  -- A rotation in flight ends.
  issued_succeed :
      (claims : List ℕ) (n : ℕ)
      → Reaches
          (system s (family ∷ claims) n)
          (system (issued s (issue_tokens w now ctx user family jti s)).0 claims n)
  issued_succeed claims n = elim issue_cases [
    | inl (e, failed_) ↦
        rw failed_ (next here (give_up (system s (family ∷ claims) n) [] claims family refl))
    | inr (d, pair, same_, made) ↦ rw made (
        next here
          (succeed (system s (family ∷ claims) n) [] claims d now (λ i. sym same_ i ∷ claims)))
  ]

module _ (w : Crypto) (now : ℕ) (ctx : TokenContext) (jti : ℕ) (claims : List ℕ) (n : ℕ) where
  successor_runs :
      (payload : RefreshPayload) (family : ℕ) (s : TokenStore)
      → Reaches
          (system s (family ∷ claims) n)
          (system (issue_successor w now ctx payload family jti s).0 claims n)
  unfolding issue_successor
  successor_runs payload family s = elim (Option-cases (find_by_id payload.id s)) [
    | inl gone_ ↦
        rw (issue_successor, gone_)
          (next here (give_up (system s (family ∷ claims) n) [] claims family refl))
    | inr (user, found_) ↦ elim (Bool-cases (user.token_version == payload.token_version)) [
      | inl same_ ↦
          rw (issue_successor, found_, same_) (issued_succeed w now ctx user family jti s claims n)
      | inr stale_ ↦
          rw (issue_successor, found_, stale_)
            (next here (give_up (system s (family ∷ claims) n) [] claims family refl))
    ]
  ]

  claimed_runs :
      (s : TokenStore) {t : RefreshToken} (payload : RefreshPayload) (id : ℕ)
      → find (is_claimable id) s.tokens ≡ some t
      → Reaches (system s claims n) (
          system
            (issue_successor w now ctx payload t.family_id jti (claim_for_rotation id now s)).0
            claims
            n)
  claimed_runs s payload id found =
      then-Reaches (next here (claim (system s claims n) id now found))
        (successor_runs payload _ (claim_for_rotation id now s))

  -- The claim alone, with whatever rows it takes.
  claim_runs :
      (s : TokenStore) (id : ℕ)
      → Reaches (system s claims n) (system (claim_for_rotation id now s) claims n)
  unfolding claim_for_rotation
  claim_runs s id = elim (Option-cases (find (is_claimable id) s.tokens)) [
    | inl none_ ↦ rw (update_where-none (is_claimable id) (rotate_row now) s.tokens none_) here
    | inr (t, found) ↦ next (next here (claim (system s claims n) id now found)) (
        give_up (system (claim_for_rotation id now s) (t.family_id ∷ claims) n) [] claims
          t.family_id refl)
  ]

  module _ (payload : RefreshPayload) (hash : ℕ) (t : RefreshToken) (s : TokenStore)
      (keyed : IsKeyed s) (stored : find_by_hash hash s ≡ some t) where
    -- A rotation is a claim and what follows it, or a write that no row takes.
    rotate_runs : Reaches (system s claims n) (system (rotate w now ctx payload t jti s).0 claims n)
    unfolding claimed_count rotate find_by_hash
    rotate_runs = elim (Bool-cases (leb t.expires_at now)) [
      | inl past_ ↦ rw (rotate, past_) here
      | inr live_ ↦ elim (Bool-cases (claimed_count t.id s == 1)) [
        | inl one_ ↦
            let (r, found) = count-find (is_claimable t.id) s.tokens (ground arith) in
            let same =
              find_unique (has_id t.id) (is_hash hash) (is_claimable t.id) s.tokens (keyed t.id).0
                stored (ground arith) found
                (claimable_id t.id r (find-holds (is_claimable t.id) s.tokens found)) in
            rw (rotate, live_, one_) (claimed_runs s payload t.id (found ∙ sym (ap some same)))
        | inr none_ ↦ rw (rotate, live_, none_) (claim_runs s t.id)
      ]
    ]

    stored_runs :
        Reaches (system s claims n) (system (refresh_stored w now ctx payload t jti s).0 claims n)
    unfolding refresh_stored replay
    stored_runs = elim (Option-cases t.revoked_at) [
      | inr (r, gone_) ↦ rw (refresh_stored, gone_) here
      | inl kept_ ↦ elim (Option-cases t.rotated_at) [
        | inl fresh_ ↦ rw (refresh_stored, kept_, fresh_) rotate_runs
        | inr (r, used_) ↦ rw (refresh_stored, kept_, used_) (replay_runs r)
      ]
    ]
      where
        replay_runs : (r : ℕ) → Reaches (system s claims n) (system (replay t r now s).0 claims n)
        replay_runs r = elim (Bool-cases (count_rotations_after t.family_id r s == 0)) [
          | inl newest_ ↦ rw (replay, newest_) here
          | inr moved_ ↦
              rw (replay, moved_) (next here (revoke (system s claims n) t.family_id now))
        ]

  pub refresh_runs :
      (token : Token) (s : TokenStore)
      → IsKeyed s
      → Reaches (system s claims n) (system (refresh w now ctx token jti s).0 claims n)
  unfolding refresh
  refresh_runs token s keyed = verified (verify_refresh_token w now token) refl
    where
      verified :
          (v : Result AuthError RefreshPayload)
          → verify_refresh_token w now token ≡ v
          → Reaches (system s claims n) (system (refresh w now ctx token jti s).0 claims n)
      verified (err e) bad_ = rw (refresh, bad_) here
      verified (ok payload) good_ = elim (Option-cases (find_by_hash (w.hash_token token) s)) [
        | inl unknown_ ↦ rw (refresh, good_, unknown_) here
        | inr (t, known_) ↦
            rw (refresh, good_, known_) (stored_runs payload (w.hash_token token) t s keyed known_)
      ]
