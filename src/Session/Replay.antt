-- ===== src/Session/Replay.antt =====
-- What a presented token is answered: a token of a revoked family, a replayed one, and one whose
-- rotation a logout overtakes.
use build_affiliate.Common.{
  ℕ, ◌<◌, ◌≡◌, ◌≢◌, refl, true, false, ◌&&◌, none, some, List, [], ◌∷◌, count, ◌==◌, arith,
  Bool-cases, Option-cases, inl, inr, find-count, update_where, sym, ◌≤◌, ◌++◌, All, ltb,
  count-append,
}
use build_affiliate.Common.Result.{Result, ok, err}
use build_affiliate.Ledger.Rows.{is_null}
use build_affiliate.Session.Tables.{
  RefreshToken, NewToken, TokenStore, AuthError, insert_token, find_by_hash, is_hash, is_unspent,
  revoke_row, revoke_family, count_rotations_after, is_after, already_used, token_reuse_detected,
  claim_for_rotation, find_by_id,
}
use build_affiliate.Session.Token.{Token, RefreshPayload, Crypto, verify_refresh_token}
use build_affiliate.Session.Service.{
  TokenContext, TokenPair, issue_successor, replay, refresh_stored, refresh, logout,
}
use build_affiliate.Session.Steps.{System, Reaches, is_live, live_tokens}
use build_affiliate.Session.Families.{Reaches-IsOver, revoked_live}
use build_affiliate.Session.Runs.{issue_cases}

-- A refresh that succeeds was of a token that was neither rotated nor revoked.
refresh-unspent :
    (w : Crypto) (now : ℕ) (ctx : TokenContext) (token : Token) (jti : ℕ) (s : TokenStore)
    {t : RefreshToken} {pair : TokenPair}
    → find_by_hash (w.hash_token token) s ≡ some t
    → (refresh w now ctx token jti s).1 ≡ ok pair
    → is_unspent t ≡ true
unfolding refresh refresh_stored replay
refresh-unspent w now ctx token jti s {t} {pair} stored done =
    verified (verify_refresh_token w now token) refl
  where
    verified :
        (v : Result AuthError RefreshPayload)
        → verify_refresh_token w now token ≡ v
        → is_unspent t ≡ true
    verified (err e) bad_ = let done' = rw (refresh, bad_) at done in cc
    verified (ok payload) good_ =
        let done' = rw (refresh, good_, stored) at done in
        elim (Option-cases t.revoked_at) [
          | inr (r, gone_) ↦ let no_ = rw (refresh_stored, gone_) at done' in cc
          | inl kept_ ↦ elim (Option-cases t.rotated_at) [
            | inl fresh_ ↦ rw (kept_, fresh_) refl
            | inr (r, used_) ↦
                let no_ = rw (refresh_stored, kept_, used_) at done' in
                absurd (replay_refuses r no_)
          ]
        ]
      where
        replay_refuses : (r : ℕ) → (replay t r now s).1 ≢ ok pair
        replay_refuses r h = ground arith

live_of : (t : RefreshToken) → is_unspent t ≡ true → is_live t.family_id t ≡ true
live_of t h = ground arith

-- A family with no live token: none of its tokens is rotated.
dead_refused :
    (w : Crypto) (now : ℕ) (ctx : TokenContext) (token : Token) (jti : ℕ) (s : TokenStore)
    {t : RefreshToken} {pair : TokenPair}
    → find_by_hash (w.hash_token token) s ≡ some t
    → count (is_live t.family_id) s.tokens ≡ 0
    → (refresh w now ctx token jti s).1 ≢ ok pair
unfolding find_by_hash
dead_refused w now ctx token jti s {t} stored dead done = omega (
  arith,
  dead,
  find-count (is_hash (w.hash_token token)) (is_live t.family_id) s.tokens stored
      (live_of t (refresh-unspent w now ctx token jti s stored done)),
)

-- Once a family is revoked while no rotation of it is in flight, no later refresh with any of its
-- tokens succeeds, whatever requests come between.
pub revoked_family_refused :
    (l : System) {m : System} (family revoked_at : ℕ) (w : Crypto) (now : ℕ) (ctx : TokenContext)
    (token : Token) (jti : ℕ) {t : RefreshToken} {pair : TokenPair}
    → family < l.next_family
    → count (λ f. f == family) l.claims ≡ 0
    → Reaches (record l { store = logout (some family) revoked_at l.store }) m
    → find_by_hash (w.hash_token token) m.store ≡ some t
    → t.family_id ≡ family
    → (refresh w now ctx token jti m.store).1 ≢ ok pair
unfolding live_tokens logout revoke_family
revoked_family_refused l {m} family revoked_at w now ctx token jti drawn calm reached stored same
      done =
    let over =
      Reaches-IsOver family reached
        (drawn, omega (arith, calm, revoked_live family revoked_at l.store.tokens)) in
    dead_refused w now ctx token jti m.store stored (rw same (omega (arith, over.1))) done

revoke_other :
    (family other now : ℕ) (ts : List RefreshToken)
    → (family == other) ≡ false
    → count
        (is_live other)
        (update_where (λ t. t.family_id == family && is_null t.revoked_at) (revoke_row now) ts)
      ≡ count (is_live other) ts
revoke_other family other now [] h = refl
revoke_other family other now (t ∷ ts) h = ground (arith, revoke_other family other now ts)

none_after :
    (family rotated : ℕ) (ts : List RefreshToken)
    → All (λ x. x.family_id ≡ family → (r : ℕ) → x.rotated_at ≡ some r → r ≤ rotated) ts
    → count (λ x. x.family_id == family && is_after rotated x.rotated_at) ts ≡ 0
none_after family rotated [] h = refl
none_after family rotated (t ∷ ts) h = elim (Bool-cases (t.family_id == family)) [
  | inr apart_ ↦ rw apart_ (none_after family rotated ts h.1)
  | inl same_ ↦ elim (Option-cases t.rotated_at) [
    | inl fresh_ ↦ rw (same_, fresh_) (none_after family rotated ts h.1)
    | inr (r, used_) ↦
        let early : ltb rotated r ≡ false = not_after (h.0 (ground arith) r used_) in
        rw (same_, used_, early) (none_after family rotated ts h.1)
  ]
]
  where
    not_after : {r : ℕ} → r ≤ rotated → ltb rotated r ≡ false
    not_after h = ground arith

one_after :
    (family rotated : ℕ) (ts before after : List RefreshToken) (x : RefreshToken) (later : ℕ)
    → ts ≡ before ++ (x ∷ after)
    → x.family_id ≡ family
    → x.rotated_at ≡ some later
    → rotated < later
    → 0 < count (λ t. t.family_id == family && is_after rotated t.rotated_at) ts
one_after family rotated ts before after x later split_ same used late =
    rw
      (
        split_,
        count-append (λ (t : RefreshToken). t.family_id == family && is_after rotated t.rotated_at)
            before (x ∷ after),
      )
      (rw (same, used) (ground arith))

-- A rotated token of a family that is not revoked is presented again. If no token of the family
-- has a later rotation time, nothing is written and the answer is that it was used already. If one has,
-- the answer is that reuse was detected, the family has no live token any more, and the live tokens
-- of every other family are as they were.
pub replayed_token :
    (w : Crypto) (now : ℕ) (ctx : TokenContext) (token : Token) (jti : ℕ) (s : TokenStore)
    {t : RefreshToken} {payload : RefreshPayload} {rotated : ℕ}
    → verify_refresh_token w now token ≡ ok payload
    → find_by_hash (w.hash_token token) s ≡ some t
    → t.revoked_at ≡ none
    → t.rotated_at ≡ some rotated
    → (All (λ x. x.family_id ≡ t.family_id → (r : ℕ) → x.rotated_at ≡ some r → r ≤ rotated) s.tokens
        → refresh w now ctx token jti s ≡ (s, err already_used))
      × ((before after : List RefreshToken) (x : RefreshToken) (later : ℕ)
          → s.tokens ≡ before ++ (x ∷ after)
          → x.family_id ≡ t.family_id
          → x.rotated_at ≡ some later
          → rotated < later
          → ((refresh w now ctx token jti s).1 ≡ err token_reuse_detected)
            × (count (is_live t.family_id) (refresh w now ctx token jti s).0.tokens ≡ 0)
            × ((other : ℕ)
                → (t.family_id == other) ≡ false
                → count (is_live other) (refresh w now ctx token jti s).0.tokens
                  ≡ count (is_live other) s.tokens))
unfolding refresh refresh_stored replay revoke_family count_rotations_after
replayed_token w now ctx token jti s {t} {payload} {rotated} good stored kept used = (
  λ newest.
      rw
        (
          refresh,
          good,
          stored,
          refresh_stored,
          kept,
          used,
          replay,
          count_rotations_after,
          none_after t.family_id rotated s.tokens newest,
        )
        refl,
  λ before after x later split_ same moved late.
      rw
        (
          refresh,
          good,
          stored,
          refresh_stored,
          kept,
          used,
          replay,
          count_rotations_after,
          nonzero
              (one_after t.family_id rotated s.tokens before after x later split_ same moved late),
        )
        (
          refl,
          revoked_live t.family_id now s.tokens,
          λ other apart. revoke_other t.family_id other now s.tokens apart,
        ),
)
  where
    nonzero : {n : ℕ} → 0 < n → (n == 0) ≡ false
    nonzero h = ground arith

successor_inserts :
    (w : Crypto) (now : ℕ) (ctx : TokenContext) (payload : RefreshPayload) (family jti : ℕ)
    (s : TokenStore) {s₂ : TokenStore} {pair : TokenPair}
    → issue_successor w now ctx payload family jti s ≡ (s₂, ok pair)
    → (d : NewToken) × (d.family_id ≡ family) × (s₂ ≡ insert_token d now s)
unfolding issue_successor
successor_inserts w now ctx payload family jti s {s₂} {pair} done =
    elim (Option-cases (find_by_id payload.id s)) [
      | inl gone_ ↦ let no_ = rw (issue_successor, gone_) at done in absurd (cc)
      | inr (user, found_) ↦ elim (Bool-cases (user.token_version == payload.token_version)) [
        | inr stale_ ↦ let no_ = rw (issue_successor, found_, stale_) at done in absurd (cc)
        | inl same_ ↦
            let done' = rw (issue_successor, found_, same_) at done in
            elim (issue_cases w now ctx user family jti s) [
              | inl (e, failed_) ↦ let no_ = rw failed_ at done' in absurd (cc)
              | inr (d, p, of_, made_) ↦
                  let written = rw made_ at done' in (d, of_, λ i. (sym written i).0)
            ]
      ]
    ]

-- A rotation claims its token, a logout of the family comes before the successor is inserted, and the
-- rotation goes on: if it returns a pair, the family that was logged out has one live token again.
pub logout_race :
    (w : Crypto) (now : ℕ) (ctx : TokenContext) (payload : RefreshPayload) (family jti id : ℕ)
    (claimed_at logged_out_at : ℕ) (s : TokenStore) {s₂ : TokenStore} {pair : TokenPair}
    → issue_successor w now ctx payload family jti
        (logout (some family) logged_out_at (claim_for_rotation id claimed_at s))
      ≡ (s₂, ok pair)
    → count (is_live family) s₂.tokens ≡ 1
unfolding issue_successor logout revoke_family insert_token
logout_race w now ctx payload family jti id claimed_at logged_out_at s {s₂} {pair} done =
    let s₁ = logout (some family) logged_out_at (claim_for_rotation id claimed_at s) in
    let (d, of_, written) = successor_inserts w now ctx payload family jti s₁ done in
    rw (written, of_)
      (let none_left =
          revoked_live family logged_out_at (claim_for_rotation id claimed_at s).tokens in
        ground (arith, none_left))
