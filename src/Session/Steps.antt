-- ===== src/Session/Steps.antt =====
-- The requests of the logins, interleaved: each write of the service is a step, and between the claim
-- of a token and the insertion of its successor any other step may come. `claims` lists the families
-- of the rotations in flight, and `next_family` stands for the generator of the random family ids.
use build_affiliate.Common.{
  ℕ, suc, ◌+◌, ◌≤◌, ◌≡◌, Bool, some, List, [], ◌∷◌, ◌++◌, find, count, ◌==◌, ◌&&◌,
}
use build_affiliate.Session.Tables.{
  Account, RefreshToken, TokenStore, NewToken, insert_token, is_unspent, is_claimable,
  claim_for_rotation, revoke_family, revoke_all_for_user, delete_settled,
}

pub record System : Type 0 where
  pub store : TokenStore
  pub claims : List ℕ
  pub next_family : ℕ

abbrev pub with_accounts : List Account → ℕ → TokenStore → TokenStore
with_accounts accounts next_id s = record s { accounts = accounts; next_id = next_id }

pub data Step : System → System → Type 0 where
  -- The first token of a new family.
  start :
      (l : System) (d : NewToken) (now : ℕ)
      → l.next_family ≤ d.family_id
      → Step l (record l { store = insert_token d now l.store; next_family = suc d.family_id })
  -- A token that may be rotated is claimed.
  claim :
      (l : System) (id now : ℕ) {t : RefreshToken}
      → find (is_claimable id) l.store.tokens ≡ some t
      → Step l
          (record l { store = claim_for_rotation id now l.store; claims = t.family_id ∷ l.claims })
  -- A rotation in flight inserts the successor, or ends without one.
  succeed :
      (l : System) (before after : List ℕ) (d : NewToken) (now : ℕ)
      → l.claims ≡ before ++ (d.family_id ∷ after)
      → Step l (record l { store = insert_token d now l.store; claims = before ++ after })
  give_up :
      (l : System) (before after : List ℕ) (family : ℕ)
      → l.claims ≡ before ++ (family ∷ after)
      → Step l (record l { claims = before ++ after })
  revoke :
      (l : System) (family now : ℕ) → Step l (record l { store = revoke_family family now l.store })
  revoke_all :
      (l : System) (user now : ℕ)
      → Step l (record l { store = revoke_all_for_user user now l.store })
  sweep : (l : System) (before : ℕ) → Step l (record l { store = delete_settled before l.store })
  -- Accounts come and change, and take ids.
  change_accounts :
      (l : System) (accounts : List Account) (next_id : ℕ)
      → l.store.next_id ≤ next_id
      → Step l (record l { store = with_accounts accounts next_id l.store })

pub data Reaches (l : System) : System → Type 0 where
  here : Reaches l l
  next : {m n : System} → Reaches l m → Step m n → Reaches l n

pub then-Reaches : {l m n : System} → Reaches l m → Reaches m n → Reaches l n
then-Reaches r here = r
then-Reaches r (next q step) = next (then-Reaches r q) step

abbrev pub system : TokenStore → List ℕ → ℕ → System
system s claims next_family = record { store = s; claims = claims; next_family = next_family }

abbrev pub no_logins : System
no_logins = record {
  store = record { tokens = []; accounts = []; next_id = 0 };
  claims = [];
  next_family = 0;
}

-- A token of the family that could still be rotated.
abbrev pub is_live : ℕ → RefreshToken → Bool
is_live family t = t.family_id == family && is_unspent t

-- How many tokens of a family can be rotated or are about to be inserted.
unfoldable pub live_tokens : ℕ → System → ℕ
live_tokens family l = count (is_live family) l.store.tokens + count (λ f. f == family) l.claims
