-- ===== src/Session/Calls.antt =====
-- The calls of auth.service.ts as one type, and what they do to the store.
use Prim.Native.String.{String}
use build_affiliate.Common.{
  ℕ, suc, ◌≤◌, Option, none, some, List, ◌∷◌, arith, Bool-cases, Option-cases, inl, inr,
}
use build_affiliate.Common.Result.{Result, ok, err}
use build_affiliate.Session.Tables.{
  AuthError, TokenStore, find_by_email, family_belongs_to, revoke_all_for_user, bump_token_version,
}
use build_affiliate.Session.Token.{Token, Crypto}
use build_affiliate.Session.Service.{
  TokenContext, RegisterInput, login, register, refresh, logout, logout_all, revoke_session,
  cleanup_refresh_tokens, new_account,
}
use build_affiliate.Session.Keys.{IsKeyed}
use build_affiliate.Session.Steps.{
  revoke, revoke_all, sweep, change_accounts, Reaches, here, next, then-Reaches, system,
}
use build_affiliate.Session.Runs.{issued_start, refresh_runs}

-- A call, with the random ids that it draws.
pub data Call : Type 0 where
  register_call : TokenContext → RegisterInput → (family jti : ℕ) → Call
  login_call : TokenContext → ℕ → String → (family jti : ℕ) → Call
  refresh_call : TokenContext → Token → ℕ → Call
  logout_call : Option ℕ → Call
  logout_all_call : ℕ → Call
  revoke_call : (user family : ℕ) → Call
  cleanup_call : Call

abbrev pub or_unchanged : TokenStore → Result AuthError TokenStore → TokenStore
or_unchanged s (err e) = s
or_unchanged s (ok written) = written

unfoldable pub perform : Crypto → ℕ → Call → TokenStore → TokenStore
perform w now (register_call ctx input family jti) s = (register w now ctx input family jti s).0
perform w now (login_call ctx email password family jti) s =
    (login w now ctx email password family jti s).0
perform w now (refresh_call ctx token jti) s = (refresh w now ctx token jti s).0
perform w now (logout_call family) s = logout family now s
perform w now (logout_all_call user) s = logout_all user now s
perform w now (revoke_call user family) s = or_unchanged s (revoke_session user family now s)
perform w now cleanup_call s = (cleanup_refresh_tokens now s).0

-- The family that the call draws, if it draws one, has not been drawn before.
abbrev pub IsDrawn : ℕ → Call → Type 0
IsDrawn n (register_call _ _ family _) = n ≤ family
IsDrawn n (login_call _ _ _ family _) = n ≤ family
IsDrawn n _ = Unit

-- Every call is a run of the atomic steps that leaves the other requests' rotations in flight where
-- they were, so that what holds of every interleaving of the steps holds of the calls.
pub call_runs :
    (w : Crypto) (now : ℕ) (call : Call) (s : TokenStore) (claims : List ℕ) (n : ℕ)
    → IsKeyed s
    → IsDrawn n call
    → (m : ℕ) × Reaches (system s claims n) (system (perform w now call s) claims m)
unfolding perform logout logout_all revoke_session cleanup_refresh_tokens bump_token_version
    revoke_all_for_user register login
call_runs w now (register_call ctx input family jti) s claims n keyed drawn =
    elim (Option-cases (find_by_email input.email s)) [
      | inr (u, taken_) ↦ (n, rw (perform, register, taken_) here)
      | inl new_ ↦
          let user = new_account input s.next_id in
          let created : TokenStore = record s {
            accounts = user ∷ s.accounts;
            next_id = suc s.next_id;
          } in
          let (m, run) = issued_start w now ctx user family jti created claims n drawn in
          (
            m,
            rw (perform, register, new_)
                (then-Reaches
                  (next here (
                    change_accounts (system s claims n) (user ∷ s.accounts) (suc s.next_id)
                      (omega arith)))
                  run),
          )
    ]
call_runs w now (login_call ctx email password family jti) s claims n keyed drawn =
    elim (Option-cases (find_by_email email s)) [
      | inl unknown_ ↦ (n, rw (perform, login, unknown_) here)
      | inr (u, known_) ↦ elim (Bool-cases (w.verify_password u.password_hash password)) [
        | inr bad_ ↦ (n, rw (perform, login, known_, bad_) here)
        | inl good_ ↦
            let (m, run) = issued_start w now ctx u family jti s claims n drawn in
            (m, rw (perform, login, known_, good_) run)
      ]
    ]
call_runs w now (refresh_call ctx token jti) s claims n keyed drawn =
    (n, refresh_runs w now ctx jti claims n token s keyed)
call_runs w now (logout_call none) s claims n keyed drawn = (n, here)
call_runs w now (logout_call (some family)) s claims n keyed drawn =
    (n, next here (revoke (system s claims n) family now))
call_runs w now (logout_all_call user) s claims n keyed drawn = (
  n,
  next (next here (revoke_all (system s claims n) user now)) (
      change_accounts (system (revoke_all_for_user user now s) claims n) _ s.next_id (omega arith)),
)
call_runs w now (revoke_call user family) s claims n keyed drawn =
    elim (Bool-cases (family_belongs_to family user s)) [
      | inl own_ ↦ (n, rw own_ (next here (revoke (system s claims n) family now)))
      | inr other_ ↦ (n, rw other_ here)
    ]
call_runs w now cleanup_call s claims n keyed drawn = (n, next here (sweep (system s claims n) _))
