-- ===== src/Auth/Cleanup.antt =====
-- `purge_refresh_token_batch` of backend/auth/cleanup.py: one batch of the rows that expired before
-- the retention is deleted, those that expired first.
use Prim.Native.Nat.{compare, Ordering}
use Prim.Native.String.{compare as compare_text}
use super_mew.Prelude.{
  ℕ, ◌+◌, String, Option, none, some, Bool, true, false, not, List, [], ◌∷◌, str_eq, leb, select,
  exists?, take, length, if◌then◌else◌,
}
use super_mew.Auth.Tokens.{RefreshToken, Ledger}
use super_mew.Auth.Service.{days}

-- ORDER BY expires_at, id
abbrev text_before : String → String → Bool
text_before a b = elim (compare_text a b) [ Ordering.lt ↦ true | _ ↦ false ]

abbrev comes_before : RefreshToken → RefreshToken → Bool
comes_before t u = elim (compare t.expires_at u.expires_at) [
  | Ordering.lt ↦ true
  | Ordering.eq ↦ text_before t.id u.id
  | Ordering.gt ↦ false
]

unfoldable pub insert_row : RefreshToken → List RefreshToken → List RefreshToken
insert_row t [] = t ∷ []
insert_row t (u ∷ us) =
    let rest = insert_row t us in if comes_before t u then t ∷ u ∷ us else u ∷ rest

unfoldable pub order_rows : List RefreshToken → List RefreshToken
order_rows [] = []
order_rows (t ∷ ts) = insert_row t (order_rows ts)

-- `expires_at <= current - retention`
abbrev pub is_outdated : ℕ → ℕ → RefreshToken → Bool
is_outdated now retention_days t = leb (t.expires_at + days retention_days) now

-- the rows that a batch deletes
abbrev pub candidates : ℕ → ℕ → ℕ → List RefreshToken → List RefreshToken
candidates now retention_days batch_size ts =
    take batch_size (order_rows (select (is_outdated now retention_days) ts))

abbrev pub is_kept : List RefreshToken → RefreshToken → Bool
is_kept chosen t = not (exists? (λ (u : RefreshToken). str_eq t.id u.id) chosen)

-- the number of deleted rows, or `none` where the call raises ValueError
unfoldable pub purge_refresh_token_batch : ℕ → ℕ → ℕ → Ledger → Option ℕ × Ledger
purge_refresh_token_batch retention_days now batch_size l =
    let chosen = candidates now retention_days batch_size l.tokens in
    if leb batch_size 0
    then (none, l)
    else (some (length chosen), record l { tokens = select (is_kept chosen) l.tokens })
