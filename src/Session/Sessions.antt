-- ===== src/Session/Sessions.antt =====
-- `listSessions` of apps/api/src/services/auth.service.ts: the live tokens of a user, one entry for
-- each family.
use Prim.Native.String.{String}
use build_affiliate.Common.{
  ℕ, ◌≡◌, refl, Bool, ◌&&◌, Option, List, [], ◌∷◌, map, ltb, leb, ◌==◌, filter, count,
  if◌then◌else◌, any, arith,
}
use build_affiliate.Common.Sorting.{sort_by, any-sort_by}
use build_affiliate.Ledger.Rows.{is_null, is_id}
use build_affiliate.Csv.{Text}
use build_affiliate.Session.Tables.{RefreshToken, TokenStore}

pub record Session : Type 0 where
  pub id : ℕ
  pub created_at : ℕ
  pub last_used_at : ℕ
  pub user_agent : Option Text
  pub ip_hash : Option String
  pub current : Bool

abbrev pub is_live_of : ℕ → ℕ → RefreshToken → Bool
is_live_of user now t = t.user_id == user && (is_null t.revoked_at && ltb now t.expires_at)

unfoldable pub list_active_for_user : ℕ → ℕ → TokenStore → List RefreshToken
list_active_for_user user now s =
    sort_by (λ (t : RefreshToken). t.issued_at) (filter (is_live_of user now) s.tokens)

-- The latest use of a family, on its first row.
abbrev pub merge_row : RefreshToken → RefreshToken → RefreshToken
merge_row row existing =
    if ltb existing.last_used_at row.last_used_at
    then record existing { last_used_at = row.last_used_at }
    else existing

-- One turn of the loop over the rows: `byFamily`, in the order of insertion.
unfoldable pub add_row : RefreshToken → List RefreshToken → List RefreshToken
add_row row [] = row ∷ []
add_row row (e ∷ es) =
    if e.family_id == row.family_id then merge_row row e ∷ es else e ∷ add_row row es

unfoldable pub group_rows : List RefreshToken → List RefreshToken → List RefreshToken
unfolding add_row
group_rows by_family [] = by_family
group_rows by_family (row ∷ rows) = group_rows (add_row row by_family) rows

abbrev pub to_session : Option ℕ → RefreshToken → Session
to_session current row = record {
  id = row.family_id;
  created_at = row.issued_at;
  last_used_at = row.last_used_at;
  user_agent = row.user_agent;
  ip_hash = row.ip_hash;
  current = is_id row.family_id current;
}

-- `sort((a, b) => b.lastUsedAt - a.lastUsedAt)`, which is stable.
unfoldable pub insert_latest : Session → List Session → List Session
insert_latest x [] = x ∷ []
insert_latest x (y ∷ ys) =
    if leb y.last_used_at x.last_used_at then x ∷ y ∷ ys else y ∷ insert_latest x ys

unfoldable pub sort_latest : List Session → List Session
unfolding insert_latest
sort_latest [] = []
sort_latest (x ∷ xs) = insert_latest x (sort_latest xs)

unfoldable pub list_sessions : ℕ → Option ℕ → ℕ → TokenStore → List Session
list_sessions user current now s =
    sort_latest (map (to_session current) (group_rows [] (list_active_for_user user now s)))

abbrev pub is_session : ℕ → Session → Bool
is_session family x = x.id == family

abbrev pub is_of : ℕ → RefreshToken → Bool
is_of family t = t.family_id == family

insert_latest_count :
    (family : ℕ) (x : Session) (ys : List Session)
    → count (is_session family) (insert_latest x ys) ≡ count (is_session family) (x ∷ ys)
unfolding insert_latest
insert_latest_count family x [] = refl
insert_latest_count family x (y ∷ ys) = ground (arith, insert_latest_count family x ys)

sort_latest_count :
    (family : ℕ) (xs : List Session)
    → count (is_session family) (sort_latest xs) ≡ count (is_session family) xs
unfolding sort_latest
sort_latest_count family [] = refl
sort_latest_count family (x ∷ xs) =
    ground (arith, insert_latest_count family x (sort_latest xs), sort_latest_count family xs)

session_count :
    (family : ℕ) (current : Option ℕ) (rows : List RefreshToken)
    → count (is_session family) (map (to_session current) rows) ≡ count (is_of family) rows
session_count family current [] = refl
session_count family current (r ∷ rows) = ground (arith, session_count family current rows)

add_row_count :
    (family : ℕ) (row : RefreshToken) (es : List RefreshToken)
    → count (is_of family) (add_row row es) ≡ (
        if row.family_id == family && count (is_of family) es == 0
        then 1
        else count (is_of family) es)
unfolding add_row
add_row_count family row [] = ground arith
add_row_count family row (e ∷ es) = ground (arith, add_row_count family row es)

group_rows_count :
    (family : ℕ) (es rows : List RefreshToken)
    → count (is_of family) (group_rows es rows) ≡ (
        if count (is_of family) es == 0 && any (is_of family) rows
        then 1
        else count (is_of family) es)
unfolding group_rows
group_rows_count family es [] = ground arith
group_rows_count family es (row ∷ rows) =
    rw (group_rows_count family (add_row row es) rows, add_row_count family row es) (ground arith)

any-live :
    (family user now : ℕ) (ts : List RefreshToken)
    → any (is_of family) (filter (is_live_of user now) ts)
      ≡ any (λ t. is_of family t && is_live_of user now t) ts
any-live family user now [] = refl
any-live family user now (t ∷ ts) = ground (arith, any-live family user now ts)

-- The sessions of a user have one entry for every family that has an unrevoked, unexpired token of
-- the user, and none for any other family.
one_entry_per_family :
    (user : ℕ) (current : Option ℕ) (now : ℕ) (s : TokenStore) (family : ℕ)
    → count (is_session family) (list_sessions user current now s)
      ≡ (if any (λ t. is_of family t && is_live_of user now t) s.tokens then 1 else 0)
unfolding list_sessions list_active_for_user
one_entry_per_family user current now s family =
    rw
      (
        sort_latest_count family (map (to_session current) (group_rows [] _)),
        session_count family current (group_rows [] _),
        group_rows_count family [] _,
        any-sort_by (λ (t : RefreshToken). t.issued_at) (is_of family) _,
        any-live family user now s.tokens,
      )
      refl
