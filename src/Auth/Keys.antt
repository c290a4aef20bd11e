-- ===== src/Auth/Keys.antt =====
-- The unique column `token_hash` of the ledger, over the calls of backend/auth/service.py and
-- backend/auth/cleanup.py.
use super_mew.Prelude.{
  ℕ, String, Option, none, some, Bool, false, inl, inr, List, [], ◌∷◌, ◌++◌, ◌≡◌, refl, arith,
  str_eq, exists?, select, Option-cases,
}
use super_mew.Db.Rows.{User}
use super_mew.Auth.Tokens.{
  RefreshToken, Ledger, has_hash, revoke_live, revoke_id, collides, lock_user,
}
use super_mew.Auth.Service.{
  Fresh, new_row, commit_row, issue, locked, rotate_token, rotate, logout, logout_all,
}
use super_mew.Auth.Cleanup.{candidates, is_kept, purge_refresh_token_batch}
use super_mew.Auth.System.{Call, issues, rotates, logs_out, logs_out_all, purges, step, steps}
use super_mew.Auth.SingleUse.{Keyed}

-- the hashes of the rows stay
revoke_live-exists :
    (h : String) (user_id now : ℕ) (ts : List RefreshToken)
    → exists? (has_hash h) (revoke_live user_id now ts) ≡ exists? (has_hash h) ts
unfolding revoke_live
revoke_live-exists h user_id now [] = refl
revoke_live-exists h user_id now (t ∷ ts) = ground (arith, revoke_live-exists h user_id now ts)

revoke_id-exists :
    (h id : String) (now : ℕ) (ts : List RefreshToken)
    → exists? (has_hash h) (revoke_id id now ts) ≡ exists? (has_hash h) ts
unfolding revoke_id
revoke_id-exists h id now [] = refl
revoke_id-exists h id now (t ∷ ts) = ground (arith, revoke_id-exists h id now ts)

select-exists :
    (h : String) (p : RefreshToken → Bool) (ts : List RefreshToken)
    → exists? (has_hash h) ts ≡ false
    → exists? (has_hash h) (select p ts) ≡ false
unfolding select
select-exists h p [] e = refl
select-exists h p (t ∷ ts) e = ground (arith, select-exists h p ts)

append-exists :
    (h : String) (t : RefreshToken) (ts : List RefreshToken)
    → exists? (has_hash h) ts ≡ false
    → str_eq t.token_hash h ≡ false
    → exists? (has_hash h) (ts ++ t ∷ []) ≡ false
append-exists h t [] e n = ground arith
append-exists h t (u ∷ ts) e n = ground (arith, append-exists h t ts)

revoke_live-Keyed :
    (user_id now : ℕ) (ts : List RefreshToken) → Keyed ts → Keyed (revoke_live user_id now ts)
unfolding revoke_live
revoke_live-Keyed user_id now [] k = refl
revoke_live-Keyed user_id now (t ∷ ts) k =
    ground (arith, revoke_live-Keyed user_id now ts, revoke_live-exists t.token_hash user_id now ts)

revoke_id-Keyed :
    (id : String) (now : ℕ) (ts : List RefreshToken) → Keyed ts → Keyed (revoke_id id now ts)
unfolding revoke_id
revoke_id-Keyed id now [] k = refl
revoke_id-Keyed id now (t ∷ ts) k =
    ground (arith, revoke_id-Keyed id now ts, revoke_id-exists t.token_hash id now ts)

select-Keyed : (p : RefreshToken → Bool) (ts : List RefreshToken) → Keyed ts → Keyed (select p ts)
unfolding select
select-Keyed p [] k = refl
select-Keyed p (t ∷ ts) k = ground (arith, select-Keyed p ts, select-exists t.token_hash p ts)

-- a row that clashes with none is added
append-Keyed :
    (new : RefreshToken) (ts : List RefreshToken)
    → Keyed ts
    → exists? (collides new) ts ≡ false
    → Keyed (ts ++ new ∷ [])
append-Keyed new [] k e = refl
append-Keyed new (t ∷ ts) k e =
    ground (arith, append-Keyed new ts, append-exists t.token_hash new ts)

module _ (hash : String → String) (access : String → String → ℕ → String)
    (expire_days retention_days : ℕ) where
  commit_row-Keyed :
      (fresh : Fresh) (user : User) (ts : List RefreshToken) (l : Ledger)
      → Keyed ts
      → Keyed l.tokens
      → Keyed (commit_row hash access expire_days fresh user ts l).1.tokens
  unfolding commit_row
  commit_row-Keyed fresh user ts l k k' =
      ground (arith, append-Keyed (new_row hash access expire_days fresh user) ts)

  rotate_token-Keyed :
      (fresh : Fresh) (user : User) (stored : RefreshToken) (l : Ledger)
      → Keyed l.tokens
      → Keyed (rotate_token hash access expire_days fresh user stored l).1.tokens
  unfolding rotate_token
  rotate_token-Keyed fresh user stored l k = ground (
    arith,
    revoke_live-Keyed user.id fresh.now l.tokens,
    commit_row-Keyed fresh user (revoke_id stored.id fresh.now l.tokens) l
        (revoke_id-Keyed stored.id fresh.now l.tokens k),
  )

  issue-Keyed :
      (fresh : Fresh) (user_id : ℕ) (l : Ledger)
      → Keyed l.tokens
      → Keyed (issue hash access expire_days fresh user_id l).1.tokens
  unfolding issue
  issue-Keyed fresh user_id l k = elim (Option-cases (lock_user user_id l)) [
    | inl e ↦ ground arith
    | inr (user, e) ↦ ground (arith, commit_row-Keyed fresh user l.tokens l)
  ]

  rotate-Keyed :
      (fresh : Fresh) (raw : Option String) (l : Ledger)
      → Keyed l.tokens
      → Keyed (rotate hash access expire_days fresh raw l).1.tokens
  unfolding rotate
  rotate-Keyed fresh none l k = k
  rotate-Keyed fresh (some raw) l k = elim (Option-cases (locked (hash raw) l)) [
    | inl e ↦ ground arith
    | inr ((user, stored), e) ↦ ground (arith, rotate_token-Keyed fresh user stored l)
  ]

  logout-Keyed :
      (now : ℕ) (raw : Option String) (l : Ledger)
      → Keyed l.tokens
      → Keyed (logout hash access expire_days now raw l).1.tokens
  unfolding logout
  logout-Keyed now none l k = k
  logout-Keyed now (some raw) l k = elim (Option-cases (locked (hash raw) l)) [
    | inl e ↦ ground arith
    | inr ((user, stored), e) ↦ ground (arith, revoke_id-Keyed stored.id now l.tokens)
  ]

  -- Each call keeps the hashes of the rows apart, whether it returns or raises.
  pub step-Keyed :
      (c : Call) (l : Ledger)
      → Keyed l.tokens
      → Keyed (step hash access expire_days retention_days c l).tokens
  unfolding step logout_all purge_refresh_token_batch
  step-Keyed (issues fresh user_id) l k = issue-Keyed fresh user_id l k
  step-Keyed (rotates fresh raw) l k = rotate-Keyed fresh raw l k
  step-Keyed (logs_out now raw) l k = logout-Keyed now raw l k
  step-Keyed (logs_out_all now user_id) l k =
      ground (arith, revoke_live-Keyed user_id now l.tokens k)
  step-Keyed (purges now batch_size) l k =
      let chosen = candidates now retention_days batch_size l.tokens in
      ground (arith, select-Keyed (is_kept chosen) l.tokens k)

  -- Whatever calls of the service and purges are made, and whether they return or raise: if
  -- no two rows of the ledger had one hash before, none have after.
  pub steps-Keyed :
      (cs : List Call) (l : Ledger)
      → Keyed l.tokens
      → Keyed (steps hash access expire_days retention_days cs l).tokens
  unfolding steps
  steps-Keyed [] l k = k
  steps-Keyed (c ∷ cs) l k = steps-Keyed cs _ (step-Keyed c l k)
