-- ===== src/Auth/SingleUse.antt =====
-- The hashes of the ledger of backend/auth/service.py of which no row is unrevoked.
use super_mew.Prelude.{
  ℕ, String, Option, none, some, Bool, true, false, not, ◌&&◌, inl, inr, List, [], ◌∷◌, ◌++◌, ◌≡◌,
  refl, subst, arith, str_eq, eq_iff, eq_refl, ◌==◌, find?, exists?, select, Bool-cases,
  Option-cases, both_true,
}
use super_mew.Db.Rows.{User}
use super_mew.Auth.Tokens.{
  RefreshToken, Ledger, has_hash, is_null, revoke_live, revoke_id, token_user_id, lock_user,
  lock_token,
}
use super_mew.Auth.Service.{
  Fresh, new_row, commit_row, issue, locked, rotate_token, rotate, logout, logout_all,
}
use super_mew.Auth.Cleanup.{candidates, is_kept, purge_refresh_token_batch}
use super_mew.Auth.System.{
  Call, issues, rotates, logs_out, logs_out_all, purges, step, steps, avoids, all_avoid,
}

-- no row of a hash is unrevoked
abbrev unspent : String → RefreshToken → Bool
unspent h t = has_hash h t && is_null t.revoked_at

abbrev pub Spent : String → List RefreshToken → Type 0
Spent h ts = exists? (unspent h) ts ≡ false

revoke_live-Spent :
    (h : String) (user_id now : ℕ) (ts : List RefreshToken)
    → Spent h ts
    → Spent h (revoke_live user_id now ts)
unfolding revoke_live
revoke_live-Spent h user_id now [] s = refl
revoke_live-Spent h user_id now (t ∷ ts) s = ground (arith, revoke_live-Spent h user_id now ts)

revoke_id-Spent :
    (h id : String) (now : ℕ) (ts : List RefreshToken) → Spent h ts → Spent h (revoke_id id now ts)
unfolding revoke_id
revoke_id-Spent h id now [] s = refl
revoke_id-Spent h id now (t ∷ ts) s = ground (arith, revoke_id-Spent h id now ts)

pub append-Spent :
    (h : String) (t : RefreshToken) (ts : List RefreshToken)
    → has_hash h t ≡ false
    → Spent h ts
    → Spent h (ts ++ t ∷ [])
append-Spent h t [] o s = ground arith
append-Spent h t (u ∷ ts) o s = ground (arith, append-Spent h t ts)

select-Spent :
    (h : String) (p : RefreshToken → Bool) (ts : List RefreshToken)
    → Spent h ts
    → Spent h (select p ts)
unfolding select
select-Spent h p [] s = refl
select-Spent h p (t ∷ ts) s = ground (arith, select-Spent h p ts)

-- a hash is the hash of one row at most
abbrev pub keyed : List RefreshToken → Bool
keyed [] = true
keyed (t ∷ ts) = not (exists? (has_hash t.token_hash) ts) && keyed ts

abbrev pub Keyed : List RefreshToken → Type 0
Keyed ts = keyed ts ≡ true

absent-Spent : (h : String) (ts : List RefreshToken) → exists? (has_hash h) ts ≡ false → Spent h ts
absent-Spent h [] s = refl
absent-Spent h (t ∷ ts) s = ground (arith, absent-Spent h ts)

absent-find :
    (h : String) (user_id : ℕ) (ts : List RefreshToken)
    → exists? (has_hash h) ts ≡ false
    → find? (λ t. has_hash h t && t.user_id == user_id) ts ≡ none
unfolding find?
absent-find h user_id [] e = refl
absent-find h user_id (t ∷ ts) e = ground (arith, absent-find h user_id ts)

-- the revoked row was the one of its hash
pub revoke_id-spends :
    (h : String) (user_id now : ℕ) (ts : List RefreshToken) (stored : RefreshToken)
    → Keyed ts
    → find? (λ t. has_hash h t && t.user_id == user_id) ts ≡ some stored
    → Spent h (revoke_id stored.id now ts)
unfolding find? revoke_id
revoke_id-spends h user_id now [] stored k f = cc
revoke_id-spends h user_id now (t ∷ ts) stored k f = elim (Bool-cases (has_hash h t)) [
  | inl e ↦
      let absent =
        subst (λ i. exists? (has_hash i) ts ≡ false) ((eq_iff t.token_hash h).0 e) (ground arith) in
      ground (
        arith,
        absent-find h user_id ts absent,
        revoke_id-Spent h stored.id now ts (absent-Spent h ts absent),
        eq_refl t.id,
      )
  | inr e ↦ ground (arith, revoke_id-spends h user_id now ts stored)
]

find-Spent :
    (h : String) (user_id : ℕ) (ts : List RefreshToken) (stored : RefreshToken)
    → Spent h ts
    → find? (λ t. has_hash h t && t.user_id == user_id) ts ≡ some stored
    → is_null stored.revoked_at ≡ false
unfolding find?
find-Spent h user_id [] stored s f = cc
find-Spent h user_id (t ∷ ts) stored s f = ground (arith, find-Spent h user_id ts stored)

-- what is locked: the row of a hash and of a user that is there
pub locked-row :
    (h : String) (l : Ledger) (user : User) (stored : RefreshToken)
    → locked h l ≡ some (user, stored)
    → (user_id : ℕ) × (find? (λ t. has_hash h t && t.user_id == user_id) l.tokens ≡ some stored)
unfolding locked token_user_id lock_user lock_token
locked-row h l user stored e = elim (Option-cases (find? (has_hash h) l.tokens)) [
  | inl a ↦ cc (rw (a, locked, token_user_id) at e)
  | inr (t, a) ↦ (t.user_id, ground arith)
]

-- a token whose hash is spent is locked as a revoked one
pub locked-revoked :
    (h : String) (l : Ledger) (user : User) (stored : RefreshToken)
    → Spent h l.tokens
    → locked h l ≡ some (user, stored)
    → is_null stored.revoked_at ≡ false
locked-revoked h l user stored s e =
    let (user_id, f) = locked-row h l user stored e in find-Spent h user_id l.tokens stored s f

module _ (hash : String → String) (access : String → String → ℕ → String)
    (expire_days retention_days : ℕ) where
  commit_row-Spent :
      (h : String) (fresh : Fresh) (user : User) (ts : List RefreshToken) (l : Ledger)
      → str_eq (hash fresh.token) h ≡ false
      → Spent h ts
      → Spent h l.tokens
      → Spent h (commit_row hash access expire_days fresh user ts l).1.tokens
  unfolding commit_row
  commit_row-Spent h fresh user ts l o s s' =
      ground (arith, append-Spent h (new_row hash access expire_days fresh user) ts o s)

  rotate_token-Spent :
      (h : String) (fresh : Fresh) (user : User) (stored : RefreshToken) (l : Ledger)
      → str_eq (hash fresh.token) h ≡ false
      → Spent h l.tokens
      → Spent h (rotate_token hash access expire_days fresh user stored l).1.tokens
  unfolding rotate_token
  rotate_token-Spent h fresh user stored l o s = ground (
    arith,
    revoke_live-Spent h user.id fresh.now l.tokens s,
    commit_row-Spent h fresh user (revoke_id stored.id fresh.now l.tokens) l o
        (revoke_id-Spent h stored.id fresh.now l.tokens s) s,
  )

  issue-Spent :
      (h : String) (fresh : Fresh) (user_id : ℕ) (l : Ledger)
      → str_eq (hash fresh.token) h ≡ false
      → Spent h l.tokens
      → Spent h (issue hash access expire_days fresh user_id l).1.tokens
  unfolding issue
  issue-Spent h fresh user_id l o s = elim (Option-cases (lock_user user_id l)) [
    | inl e ↦ ground arith
    | inr (user, e) ↦ ground (arith, commit_row-Spent h fresh user l.tokens l o s s)
  ]

  rotate-Spent :
      (h : String) (fresh : Fresh) (raw : Option String) (l : Ledger)
      → str_eq (hash fresh.token) h ≡ false
      → Spent h l.tokens
      → Spent h (rotate hash access expire_days fresh raw l).1.tokens
  unfolding rotate
  rotate-Spent h fresh none l o s = s
  rotate-Spent h fresh (some raw) l o s = elim (Option-cases (locked (hash raw) l)) [
    | inl e ↦ ground arith
    | inr ((user, stored), e) ↦ ground (arith, rotate_token-Spent h fresh user stored l o s)
  ]

  logout-Spent :
      (h : String) (now : ℕ) (raw : Option String) (l : Ledger)
      → Spent h l.tokens
      → Spent h (logout hash access expire_days now raw l).1.tokens
  unfolding logout
  logout-Spent h now none l s = s
  logout-Spent h now (some raw) l s = elim (Option-cases (locked (hash raw) l)) [
    | inl e ↦ ground arith
    | inr ((user, stored), e) ↦ ground (arith, revoke_id-Spent h stored.id now l.tokens s)
  ]

  step-Spent :
      (h : String) (c : Call) (l : Ledger)
      → avoids hash access expire_days retention_days h c ≡ true
      → Spent h l.tokens
      → Spent h (step hash access expire_days retention_days c l).tokens
  unfolding step logout_all purge_refresh_token_batch
  step-Spent h (issues fresh user_id) l o s = issue-Spent h fresh user_id l (ground arith) s
  step-Spent h (rotates fresh raw) l o s = rotate-Spent h fresh raw l (ground arith) s
  step-Spent h (logs_out now raw) l o s = logout-Spent h now raw l s
  step-Spent h (logs_out_all now user_id) l o s =
      ground (arith, revoke_live-Spent h user_id now l.tokens s)
  step-Spent h (purges now batch_size) l o s =
      let chosen = candidates now retention_days batch_size l.tokens in
      ground (arith, select-Spent h (is_kept chosen) l.tokens s)

  pub steps-Spent :
      (h : String) (cs : List Call) (l : Ledger)
      → all_avoid hash access expire_days retention_days h cs ≡ true
      → Spent h l.tokens
      → Spent h (steps hash access expire_days retention_days cs l).tokens
  unfolding steps
  steps-Spent h [] l o s = s
  steps-Spent h (c ∷ cs) l o s =
      let (here, later) = both_true _ _ o in steps-Spent h cs _ later (step-Spent h c l here s)
