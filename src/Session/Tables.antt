-- ===== src/Session/Tables.antt =====
-- The tables of the logins, and the queries of
-- apps/api/src/repositories/refresh-token.repository.ts on them. Ids, families, hashes and e-mail
-- addresses are only compared, so they are numbers; times are epoch milliseconds.
use Prim.Native.String.{String}
use build_affiliate.Common.{
  ℕ, suc, Bool, false, ◌&&◌, ◌||◌, not, Option, none, some, List, ◌∷◌, ◌==◌, ltb, find, filter,
  count, update_where,
}
use build_affiliate.Common.Result.{Result, ok, err}
use build_affiliate.Csv.{Text}
use build_affiliate.Ledger.Rows.{is_null}

pub data UserRole : Type 0 where
  brand affiliate admin : UserRole

pub record Account : Type 0 where
  pub id : ℕ
  pub email : ℕ
  pub password_hash : String
  pub role : UserRole
  pub token_version : ℕ

pub record RefreshToken : Type 0 where
  pub id : ℕ
  pub family_id : ℕ
  pub token_hash : ℕ
  pub user_id : ℕ
  pub issued_at : ℕ
  pub last_used_at : ℕ
  pub expires_at : ℕ
  pub rotated_at : Option ℕ
  pub revoked_at : Option ℕ
  pub user_agent : Option Text
  pub ip_hash : Option String

-- `next_id` stands for the database's id generator.
pub record TokenStore : Type 0 where
  pub tokens : List RefreshToken
  pub accounts : List Account
  pub next_id : ℕ

pub data AuthError : Type 0 where
  email_registered invalid_credentials invalid_refresh_token invalid_token_type
        refresh_token_expired session_revoked already_used token_reuse_detected token_revoked
        session_not_found unique_violation :
      AuthError

-- What `tokens.create` is given.
pub record NewToken : Type 0 where
  pub family_id : ℕ
  pub token_hash : ℕ
  pub user_id : ℕ
  pub expires_at : ℕ
  pub user_agent : Option Text
  pub ip_hash : Option String

abbrev pub is_hash : ℕ → RefreshToken → Bool
is_hash hash t = t.token_hash == hash

unfoldable pub find_by_hash : ℕ → TokenStore → Option RefreshToken
find_by_hash hash s = find (is_hash hash) s.tokens

abbrev pub new_row : NewToken → ℕ → ℕ → RefreshToken
new_row data_ id now = record {
  id = id;
  family_id = data_.family_id;
  token_hash = data_.token_hash;
  user_id = data_.user_id;
  issued_at = now;
  last_used_at = now;
  expires_at = data_.expires_at;
  rotated_at = none;
  revoked_at = none;
  user_agent = data_.user_agent;
  ip_hash = data_.ip_hash;
}

unfoldable pub insert_token : NewToken → ℕ → TokenStore → TokenStore
insert_token data_ now s = record s {
  tokens = new_row data_ s.next_id now ∷ s.tokens;
  next_id = suc s.next_id;
}

-- `create`, which the unique index on the hash may refuse.
unfoldable pub create_token : NewToken → ℕ → TokenStore → Result AuthError TokenStore
unfolding find_by_hash
create_token data_ now s = elim (find_by_hash data_.token_hash s) [
  | none ↦ ok (insert_token data_ now s)
  | some _ ↦ err unique_violation
]

abbrev pub is_unspent : RefreshToken → Bool
is_unspent t = is_null t.rotated_at && is_null t.revoked_at

abbrev pub is_claimable : ℕ → RefreshToken → Bool
is_claimable id t = t.id == id && is_unspent t

abbrev pub rotate_row : ℕ → RefreshToken → RefreshToken
rotate_row now t = record t { rotated_at = some now; last_used_at = now }

-- `claimForRotation`: the updated table, and below the number of rows that it updated.
unfoldable pub claim_for_rotation : ℕ → ℕ → TokenStore → TokenStore
claim_for_rotation id now s = record s {
  tokens = update_where (is_claimable id) (rotate_row now) s.tokens;
}

unfoldable pub claimed_count : ℕ → TokenStore → ℕ
claimed_count id s = count (is_claimable id) s.tokens

-- `{ gt: after }`, false on null.
abbrev pub is_after : ℕ → Option ℕ → Bool
is_after after none = false
is_after after (some t) = ltb after t

unfoldable pub count_rotations_after : ℕ → ℕ → TokenStore → ℕ
count_rotations_after family after s =
    count (λ t. t.family_id == family && is_after after t.rotated_at) s.tokens

abbrev pub revoke_row : ℕ → RefreshToken → RefreshToken
revoke_row now t = record t { revoked_at = some now }

unfoldable pub revoke_family : ℕ → ℕ → TokenStore → TokenStore
revoke_family family now s = record s {
  tokens =
      update_where (λ t. t.family_id == family && is_null t.revoked_at) (revoke_row now) s.tokens;
}

unfoldable pub revoke_all_for_user : ℕ → ℕ → TokenStore → TokenStore
revoke_all_for_user user now s = record s {
  tokens = update_where (λ t. t.user_id == user && is_null t.revoked_at) (revoke_row now) s.tokens;
}

unfoldable pub family_belongs_to : ℕ → ℕ → TokenStore → Bool
family_belongs_to family user s =
    ltb 0 (count (λ t. t.family_id == family && t.user_id == user) s.tokens)

-- `{ lt: before }`, false on null.
abbrev pub is_before : ℕ → Option ℕ → Bool
is_before before none = false
is_before before (some t) = ltb t before

abbrev pub is_settled : ℕ → RefreshToken → Bool
is_settled before t = ltb t.expires_at before || is_before before t.revoked_at

unfoldable pub delete_settled : ℕ → TokenStore → TokenStore
delete_settled before s = record s { tokens = filter (λ t. not (is_settled before t)) s.tokens }

unfoldable pub find_by_id : ℕ → TokenStore → Option Account
find_by_id id s = find (λ u. u.id == id) s.accounts

unfoldable pub find_by_email : ℕ → TokenStore → Option Account
find_by_email email s = find (λ u. u.email == email) s.accounts

unfoldable pub bump_token_version : ℕ → TokenStore → TokenStore
bump_token_version id s = record s {
  accounts =
      update_where (λ u. u.id == id) (λ u. record u { token_version = suc u.token_version })
        s.accounts;
}
