-- ===== src/Auth/Service.antt =====
-- `AuthTokenService` of backend/auth/service.py. Each method is one transaction under the locks of
-- the user's and the token's rows. `hash` is SHA-256 in hexadecimal, and `access` makes the signed
-- access token of a user at a time.
use super_mew.Prelude.{
  ℕ, ◌+◌, ◌*◌, String, Option, none, some, Bool, not, ◌&&◌, ◌||◌, List, [], ◌∷◌, ◌++◌, count,
  exists?, ◌⊎◌, inl, inr, leb, is_lower, is_upper, is_digit, len, every, ◌==◌, if◌then◌else◌,
}
use super_mew.Db.Rows.{User}
use super_mew.Auth.Tokens.{
  RefreshToken, Ledger, is_null, is_live, revoke_live, revoke_id, collides, token_user_id,
  lock_user, lock_token,
}

-- `RefreshTokenRejection`
pub data RefreshTokenRejection : Type 0 where
  missing invalid expired replay : RefreshTokenRejection

-- `TokenGrant`
pub record TokenGrant : Type 0 where
  pub access_token : String
  pub refresh_token : String
  pub username : String
  pub role : String

-- what a call that issues a token returns or raises
pub data Reply : Type 0 where
  granted : TokenGrant → Reply
  rejected : RefreshTokenRejection → Reply
  runtime_error integrity_error : Reply

-- what a call takes from outside: the clock, and the identifier and the token that are generated
pub record Fresh : Type 0 where
  pub now : ℕ
  pub id : String
  pub token : String

-- `[A-Za-z0-9_-]`
unfoldable pub is_opaque_char : ℕ → Bool
is_opaque_char c = is_lower c || is_upper c || is_digit c || c == b'_' || c == b'-'

-- `_OPAQUE_REFRESH_TOKEN`: `[A-Za-z0-9_-]{64,256}`
unfoldable pub is_opaque : String → Bool
is_opaque s = every is_opaque_char s && leb 64 (len s) && leb (len s) 256

-- `timedelta(days=…)`
abbrev pub days : ℕ → ℕ
days n = n * 86400000000

-- the rows that `rotate` and `logout` lock
unfoldable pub locked : String → Ledger → Option (User × RefreshToken)
locked h l = elim (token_user_id h l) [
  | none ↦ none
  | some user_id ↦ elim (lock_user user_id l) [
    | none ↦ none
    | some user ↦ elim (lock_token h user_id l) [ none ↦ none | some stored ↦ some (user, stored) ]
  ]
]

module _ (hash : String → String) (access : String → String → ℕ → String) (expire_days : ℕ) where
  abbrev pub new_row : Fresh → User → RefreshToken
  new_row fresh user = record {
    id = fresh.id;
    user_id = user.id;
    token_hash = hash fresh.token;
    expires_at = fresh.now + days expire_days;
    revoked_at = none;
    created_at = fresh.now;
  }

  abbrev pub grant_of : Fresh → User → TokenGrant
  grant_of fresh user = record {
    access_token = access user.username user.role fresh.now;
    refresh_token = fresh.token;
    username = user.username;
    role = user.role;
  }

  -- the insertion and the commit that end `issue` and `rotate`, over the rows as updated; a clash
  -- rolls back
  unfoldable pub commit_row : Fresh → User → List RefreshToken → Ledger → Reply × Ledger
  commit_row fresh user tokens l =
      if exists? (collides (new_row fresh user)) tokens
      then (integrity_error, l)
      else (granted (grant_of fresh user), record l { tokens = tokens ++ new_row fresh user ∷ [] })

  -- `issue`
  unfoldable pub issue : Fresh → ℕ → Ledger → Reply × Ledger
  issue fresh user_id l =
      if is_opaque fresh.token
      then elim (lock_user user_id l) [
        | none ↦ (runtime_error, l)
        | some user ↦ commit_row fresh user l.tokens l
      ]
      else (runtime_error, l)

  -- `_validated_hash`
  abbrev pub validated_hash : Option String → RefreshTokenRejection ⊎ String
  validated_hash none = inl missing
  validated_hash (some raw) = if is_opaque raw then inr (hash raw) else inl invalid

  -- the part of `rotate` after the rows are locked
  unfoldable pub rotate_token : Fresh → User → RefreshToken → Ledger → Reply × Ledger
  rotate_token fresh user stored l =
      if leb stored.expires_at fresh.now
      then (rejected expired, l)
      else if not (is_null stored.revoked_at)
      then (rejected replay, record l { tokens = revoke_live user.id fresh.now l.tokens })
      else if is_opaque fresh.token
      then commit_row fresh user (revoke_id stored.id fresh.now l.tokens) l
      else (runtime_error, l)

  -- `rotate`
  unfoldable pub rotate : Fresh → Option String → Ledger → Reply × Ledger
  rotate fresh raw l = elim (validated_hash raw) [
    | inl r ↦ (rejected r, l)
    | inr h ↦ elim (locked h l) [
      | none ↦ (rejected invalid, l)
      | some (user, stored) ↦ rotate_token fresh user stored l
    ]
  ]

  -- the part of `logout` after the rows are locked
  abbrev pub logout_token : ℕ → RefreshToken → Ledger → ℕ × Ledger
  logout_token now stored l =
      if not (is_null stored.revoked_at) || leb stored.expires_at now
      then (0, l)
      else (1, record l { tokens = revoke_id stored.id now l.tokens })

  -- `logout`
  unfoldable pub logout : ℕ → Option String → Ledger → ℕ × Ledger
  logout now raw l = elim (validated_hash raw) [
    | inl r ↦ (0, l)
    | inr h ↦ elim (locked h l) [ none ↦ (0, l) | some (user, stored) ↦ logout_token now stored l ]
  ]

-- `logout_all`
unfoldable pub logout_all : ℕ → ℕ → Ledger → ℕ × Ledger
logout_all now user_id l = elim (lock_user user_id l) [
  | none ↦ (0, l)
  | some user ↦
      (count (is_live user_id now) l.tokens, record l { tokens = revoke_live user_id now l.tokens })
]
