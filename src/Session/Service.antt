-- ===== src/Session/Service.antt =====
-- `authService` of apps/api/src/services/auth.service.ts. An operation that may throw after it has
-- written returns the store beside its result. A call reads the clock once here; random ids are
-- arguments.
use Prim.Native.String.{String}
use build_affiliate.Common.{
  ℕ, ◌+◌, ◌-◌, ◌*◌, Option, none, some, ◌∷◌, leb, ◌==◌, take, length, if◌then◌else◌, suc,
}
use build_affiliate.Common.Result.{Result, ok, err, ◌>>=◌}
use build_affiliate.Common.Text.{is_truthy}
use build_affiliate.Csv.{Text}
use build_affiliate.Session.Tables.{
  UserRole, Account, RefreshToken, NewToken, TokenStore, AuthError, email_registered,
  invalid_credentials, invalid_refresh_token, refresh_token_expired, session_revoked, already_used,
  token_reuse_detected, token_revoked, session_not_found, find_by_hash, create_token,
  claim_for_rotation, claimed_count, count_rotations_after, revoke_family, revoke_all_for_user,
  family_belongs_to, delete_settled, find_by_id, find_by_email, bump_token_version,
}
use build_affiliate.Session.Token.{
  Token, RefreshPayload, Crypto, ttl_to_seconds, sign_refresh_token, verify_refresh_token,
}

pub record TokenContext : Type 0 where
  pub user_agent : Option Text
  pub ip : Option String

pub record TokenPair : Type 0 where
  pub access_token : String
  pub refresh_token : Token

pub record RegisterInput : Type 0 where
  pub email : ℕ
  pub password_hash : String  -- `hashPassword(input.password)`
  pub role : UserRole

-- `userAgent?.slice(0, 500) ?? null`.
abbrev pub clip_agent : Option Text → Option Text
clip_agent none = none
clip_agent (some agent) = some (take 500 agent)

abbrev pub hash_address : Crypto → Option String → Option String
hash_address w none = none
hash_address w (some ip) = if is_truthy (some ip) then some (w.hash_ip ip) else none

-- The refresh token of a pair, the row that is written for it, and the pair.
abbrev pub minted : Crypto → ℕ → Account → ℕ → ℕ → Token
minted w now user family jti =
    sign_refresh_token w now
      (record { id = user.id; token_version = user.token_version; family_id = family; jti = jti })

abbrev pub minted_row : Crypto → ℕ → TokenContext → Account → ℕ → ℕ → NewToken
minted_row w now ctx user family jti = record {
  family_id = family;
  token_hash = w.hash_token (minted w now user family jti);
  user_id = user.id;
  expires_at = now + ttl_to_seconds w.refresh_ttl * 1000;
  user_agent = clip_agent ctx.user_agent;
  ip_hash = hash_address w ctx.ip;
}

abbrev pub minted_pair : Crypto → ℕ → Account → ℕ → ℕ → TokenPair
minted_pair w now user family jti = record {
  access_token = w.sign_access (record {
    id = user.id;
    role = user.role;
    token_version = user.token_version;
    family_id = family;
  });
  refresh_token = minted w now user family jti;
}

unfoldable pub issue_tokens :
    Crypto
    → ℕ
    → TokenContext
    → Account
    → ℕ
    → ℕ
    → TokenStore
    → Result AuthError (TokenStore × TokenPair)
issue_tokens w now ctx user family jti s = do
  written ← create_token (minted_row w now ctx user family jti) now s
  ok (written, minted_pair w now user family jti)

abbrev pub new_account : RegisterInput → ℕ → Account
new_account input id = record {
  id = id;
  email = input.email;
  password_hash = input.password_hash;
  role = input.role;
  token_version = 0;
}

-- What a call leaves: the store of its last write, and what it answers.
abbrev pub Answer : Type 0
Answer = TokenStore × Result AuthError TokenPair

abbrev pub issued : TokenStore → Result AuthError (TokenStore × TokenPair) → Answer
issued s (err thrown) = (s, err thrown)
issued s (ok (written, pair)) = (written, ok pair)

unfoldable pub register : Crypto → ℕ → TokenContext → RegisterInput → ℕ → ℕ → TokenStore → Answer
register w now ctx input family jti s = elim (find_by_email input.email s) [
  | some _ ↦ (s, err email_registered)
  | none ↦
      let user = new_account input s.next_id in
      let created = record s { accounts = user ∷ s.accounts; next_id = suc s.next_id } in
      issued created (issue_tokens w now ctx user family jti created)
]

unfoldable pub login : Crypto → ℕ → TokenContext → ℕ → String → ℕ → ℕ → TokenStore → Answer
login w now ctx email password family jti s = elim (find_by_email email s) [
  | none ↦ (s, err invalid_credentials)
  | some user ↦
      if w.verify_password user.password_hash password
      then issued s (issue_tokens w now ctx user family jti s)
      else (s, err invalid_credentials)
]

-- A rotated token that is presented again.
unfoldable pub replay : RefreshToken → ℕ → ℕ → TokenStore → Answer
replay stored rotated_at now s =
    if count_rotations_after stored.family_id rotated_at s == 0
    then (s, err already_used)
    else (revoke_family stored.family_id now s, err token_reuse_detected)

-- After the claim: the account decides, and a pair of the same family is issued.
unfoldable pub issue_successor :
    Crypto → ℕ → TokenContext → RefreshPayload → ℕ → ℕ → TokenStore → Answer
issue_successor w now ctx payload family jti s = elim (find_by_id payload.id s) [
  | none ↦ (s, err token_revoked)
  | some user ↦
      if user.token_version == payload.token_version
      then issued s (issue_tokens w now ctx user family jti s)
      else (s, err token_revoked)
]

unfoldable pub rotate :
    Crypto → ℕ → TokenContext → RefreshPayload → RefreshToken → ℕ → TokenStore → Answer
rotate w now ctx payload stored jti s =
    if leb stored.expires_at now
    then (s, err refresh_token_expired)
    else if claimed_count stored.id s == 1
    then issue_successor w now ctx payload stored.family_id jti (claim_for_rotation stored.id now s)
    else (claim_for_rotation stored.id now s, err invalid_refresh_token)

-- The decision on the row as it was read, over the store as it is by now.
unfoldable pub refresh_stored :
    Crypto → ℕ → TokenContext → RefreshPayload → RefreshToken → ℕ → TokenStore → Answer
refresh_stored w now ctx payload stored jti s = elim stored.revoked_at [
  | some _ ↦ (s, err session_revoked)
  | none ↦ elim stored.rotated_at [
    | some rotated_at ↦ replay stored rotated_at now s
    | none ↦ rotate w now ctx payload stored jti s
  ]
]

unfoldable pub refresh : Crypto → ℕ → TokenContext → Token → ℕ → TokenStore → Answer
refresh w now ctx token jti s = elim (verify_refresh_token w now token) [
  | err thrown ↦ (s, err thrown)
  | ok payload ↦ elim (find_by_hash (w.hash_token token) s) [
    | none ↦ (s, err invalid_refresh_token)
    | some stored ↦ refresh_stored w now ctx payload stored jti s
  ]
]

unfoldable pub logout : Option ℕ → ℕ → TokenStore → TokenStore
logout none now s = s
logout (some family) now s = revoke_family family now s

unfoldable pub logout_all : ℕ → ℕ → TokenStore → TokenStore
logout_all user now s = bump_token_version user (revoke_all_for_user user now s)

unfoldable pub revoke_session : ℕ → ℕ → ℕ → TokenStore → Result AuthError TokenStore
revoke_session user family now s =
    if family_belongs_to family user s
    then ok (revoke_family family now s)
    else err session_not_found

abbrev pub retention_days : ℕ
retention_days = 30

-- The store without what is settled for thirty days, and the number of deleted rows.
unfoldable pub cleanup_refresh_tokens : ℕ → TokenStore → TokenStore × ℕ
cleanup_refresh_tokens now s =
    let swept = delete_settled (now - retention_days * 24 * 3600 * 1000) s in
    (swept, length s.tokens - length swept.tokens)
