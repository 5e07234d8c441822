-- ===== src/Session/Examples.antt =====
-- The theorems on the logins at one account, with tokens whose bodies are told apart by their length.
use Prim.Native.String.{String, len}
use build_affiliate.Common.{
  ℕ, zero, suc, ◌+◌, ◌*◌, ◌/◌, ◌≤◌, ◌<◌, ◌≡◌, ◌≢◌, refl, true, false, Option, none, some, List, [],
  ◌∷◌, count, ◌==◌, arith, All, ◌++◌,
}
use build_affiliate.Common.Result.{ok, err}
use build_affiliate.Session.Tables.{
  UserRole, Account, RefreshToken, NewToken, TokenStore, insert_token, claim_for_rotation,
  claimed_count, refresh_token_expired, token_reuse_detected, already_used, find_by_hash,
  revoke_family, find_by_id, create_token,
}
use build_affiliate.Session.Token.{
  Token, RefreshPayload, Crypto, claims_of, sign_refresh_token, verify_refresh_token, verify-sign,
  value_after, seconds_in, days, check_claims,
}
use build_affiliate.Session.Service.{TokenContext, refresh, logout, issue_successor, issue_tokens}
use build_affiliate.Session.Steps.{
  System, Reaches, here, next, start, no_logins, system, is_live, live_tokens,
}
use build_affiliate.Session.Families.{one_live_token}
use build_affiliate.Session.Once.{claimed_once}
use build_affiliate.Session.Keys.{IsKeyed}
use build_affiliate.Session.Calls.{refresh_call, perform, call_runs}
use build_affiliate.Session.Replay.{revoked_family_refused, replayed_token, logout_race}

abbrev body_of : ℕ → String
body_of zero = ""
body_of (suc zero) = "a"
body_of (suc (suc zero)) = "aa"
body_of _ = "aaa"

abbrev payload_of : ℕ → RefreshPayload
payload_of jti = record { id = 1; token_version = 0; family_id = 5; jti = jti }

abbrev body_length : Token → ℕ
body_length (header ∷ body ∷ _) = len body
body_length _ = 0

abbrev one_day : List ℕ
one_day = 49 ∷ 100 ∷ []

abbrev toy : Crypto
toy = record {
  header = "h";
  hmac = λ header body. "s";
  encode = λ p exp. body_of p.jti;
  decode = λ body. some (claims_of (payload_of (len body)) 86401);
  hash_token = body_length;
  hash_ip = λ ip. ip;
  verify_password = λ hash password. true;
  sign_access = λ p. "access";
  refresh_ttl = one_day;
}

abbrev nowhere : TokenContext
nowhere = record { user_agent = none; ip = none }

abbrev payload_one : RefreshPayload
payload_one = payload_of 1

abbrev alice : Account
alice = record {
  id = 1;
  email = 9;
  password_hash = "x";
  role = UserRole.affiliate;
  token_version = 0;
}

abbrev before_login : TokenStore
before_login = record { tokens = []; accounts = alice ∷ []; next_id = 2 }

abbrev token_of : ℕ → Token
token_of jti = "h" ∷ body_of jti ∷ "s" ∷ []

abbrev row : ℕ → Option ℕ → RefreshToken
row jti rotated = record {
  id = jti;
  family_id = 5;
  token_hash = jti;
  user_id = 1;
  issued_at = 1000;
  last_used_at = 1000;
  expires_at = 86401000;
  rotated_at = rotated;
  revoked_at = none;
  user_agent = none;
  ip_hash = none;
}

-- Two rotations after the login: the third token is the live one.
abbrev rotated_twice : TokenStore
rotated_twice = record {
  tokens = row 3 none ∷ row 2 (some 3000) ∷ row 1 (some 2000) ∷ [];
  accounts = alice ∷ [];
  next_id = 4;
}

verify-sign_example :
    (2000 / 1000 ≤ 1000 / 1000 + value_after 0 (1 ∷ []) * seconds_in days
      → verify_refresh_token toy 2000 (sign_refresh_token toy 1000 payload_one) ≡ ok payload_one)
    × (1000 / 1000 + value_after 0 (1 ∷ []) * seconds_in days < 2000 / 1000
        → verify_refresh_token toy 2000 (sign_refresh_token toy 1000 payload_one)
          ≡ err refresh_token_expired)
verify-sign_example =
    verify-sign toy payload_one 1000 2000 1 [] days refl (omega arith, tt) (omega arith)
      (record {
        decodes = refl;
        header_present = refl;
        body_present = refl;
        signature_present = refl;
      })

abbrev first_row : NewToken
first_row = record {
  family_id = 5;
  token_hash = 1;
  user_id = 1;
  expires_at = 86401000;
  user_agent = none;
  ip_hash = none;
}

abbrev started : System
started = system (insert_token first_row 1000 no_logins.store) [] 6

one_live_token_example : live_tokens 5 started ≤ 1
one_live_token_example = one_live_token 5 (next here (start no_logins first_row 1000 (omega arith)))

claimed_once_example : claimed_count 3 (claim_for_rotation 3 4000 rotated_twice) ≡ 0
claimed_once_example = claimed_once (system rotated_twice [] 6) 3 4000 (omega arith) here

keyed : IsKeyed rotated_twice
keyed id = (ground arith, λ late. ground arith)

call_runs_example :
    (m : ℕ) × Reaches
      (system rotated_twice (7 ∷ []) 8)
      (system (perform toy 4000 (refresh_call nowhere (token_of 3) 0) rotated_twice) (7 ∷ []) m)
call_runs_example =
    call_runs toy 4000 (refresh_call nowhere (token_of 3) 0) rotated_twice (7 ∷ []) 8 keyed tt

revoked_family_refused_example :
    (refresh toy 5000 nowhere (token_of 3) 9 (logout (some 5) 4000 rotated_twice)).1
    ≢ ok (record { access_token = "access"; refresh_token = token_of 2 })
unfolding logout revoke_family find_by_hash
revoked_family_refused_example =
    revoked_family_refused (system rotated_twice [] 6) 5 4000 toy 5000 nowhere (token_of 3) 9
      (omega arith) refl here refl refl

replayed_token_example :
    (All (λ x. x.family_id ≡ 5 → (r : ℕ) → x.rotated_at ≡ some r → r ≤ 2000) rotated_twice.tokens
      → refresh toy 4000 nowhere (token_of 1) 9 rotated_twice ≡ (rotated_twice, err already_used))
    × ((before after : List RefreshToken) (x : RefreshToken) (later : ℕ)
        → rotated_twice.tokens ≡ before ++ (x ∷ after)
        → x.family_id ≡ 5
        → x.rotated_at ≡ some later
        → 2000 < later
        → ((refresh toy 4000 nowhere (token_of 1) 9 rotated_twice).1 ≡ err token_reuse_detected)
          × (count (is_live 5) (refresh toy 4000 nowhere (token_of 1) 9 rotated_twice).0.tokens ≡ 0)
          × ((other : ℕ)
              → (5 == other) ≡ false
              → count
                  (is_live other)
                  (refresh toy 4000 nowhere (token_of 1) 9 rotated_twice).0.tokens
                ≡ count (is_live other) rotated_twice.tokens))
unfolding verify_refresh_token check_claims find_by_hash
replayed_token_example =
    replayed_token toy 4000 nowhere (token_of 1) 9 rotated_twice {payload = payload_one} refl refl
      refl refl

logout_race_example :
    count
      (is_live 5)
      (issue_successor toy 4000 nowhere
        (payload_of 3)
        5
        0
        (logout (some 5) 4000 (claim_for_rotation 3 4000 rotated_twice))).0.tokens
    ≡ 1
unfolding issue_successor find_by_id logout revoke_family claim_for_rotation issue_tokens
    create_token sign_refresh_token find_by_hash insert_token
logout_race_example =
    logout_race toy 4000 nowhere (payload_of 3) 5 0 3 4000 4000 rotated_twice
      {pair = record { access_token = "access"; refresh_token = token_of 0 }} refl
