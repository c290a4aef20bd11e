-- ===== src/Auth/Tokens.antt =====
-- The ledger of refresh tokens: the table `refresh_tokens` of backend/db/models.py and its queries.
-- A date is the number of its microsecond.
use super_mew.Prelude.{
  ℕ, String, Option, none, some, Bool, true, false, ◌&&◌, ◌||◌, List, [], ◌∷◌, str_eq, ◌==◌, ltb,
  find?, if◌then◌else◌,
}
use super_mew.Db.Rows.{User}

-- `RefreshToken`
pub record RefreshToken : Type 0 where
  pub id : String
  pub user_id : ℕ
  pub token_hash : String
  pub expires_at : ℕ
  pub revoked_at : Option ℕ
  pub created_at : ℕ

pub record Ledger : Type 0 where
  pub users : List User
  pub tokens : List RefreshToken

abbrev pub has_hash : String → RefreshToken → Bool
has_hash h t = str_eq t.token_hash h

abbrev pub has_user : ℕ → User → Bool
has_user id u = u.id == id

abbrev pub is_null : Option ℕ → Bool
is_null none = true
is_null (some _) = false

-- what `_revoke_active_for_user` updates
abbrev pub is_live : ℕ → ℕ → RefreshToken → Bool
is_live user_id now t = t.user_id == user_id && is_null t.revoked_at && ltb now t.expires_at

abbrev pub revoke : ℕ → RefreshToken → RefreshToken
revoke now t = record t { revoked_at = some now }

-- `_revoke_active_for_user`: UPDATE of the live rows of a user
unfoldable pub revoke_live : ℕ → ℕ → List RefreshToken → List RefreshToken
revoke_live user_id now [] = []
revoke_live user_id now (t ∷ ts) =
    (if is_live user_id now t then revoke now t else t) ∷ revoke_live user_id now ts

-- UPDATE of the row of an identifier
unfoldable pub revoke_id : String → ℕ → List RefreshToken → List RefreshToken
revoke_id id now [] = []
revoke_id id now (t ∷ ts) = (if str_eq t.id id then revoke now t else t) ∷ revoke_id id now ts

-- the key and the unique column `token_hash`
abbrev pub collides : RefreshToken → RefreshToken → Bool
collides t u = str_eq t.id u.id || str_eq t.token_hash u.token_hash

-- `_token_user_id`
unfoldable pub token_user_id : String → Ledger → Option ℕ
token_user_id h l = elim (find? (has_hash h) l.tokens) [ none ↦ none | some t ↦ some t.user_id ]

-- `_lock_user`
unfoldable pub lock_user : ℕ → Ledger → Option User
lock_user user_id l = find? (has_user user_id) l.users

-- `_lock_token`
unfoldable pub lock_token : String → ℕ → Ledger → Option RefreshToken
lock_token h user_id l = find? (λ t. has_hash h t && t.user_id == user_id) l.tokens
