-- ===== src/Auth/Rotation.antt =====
-- What the holder of a refresh token can do with it: `AuthTokenService` of backend/auth/service.py.
use super_mew.Prelude.{
  ℕ, String, some, Bool, true, false, ◌&&◌, inl, inr, List, [], ◌∷◌, ◌++◌, ◌≡◌, sym, subst, arith,
  str_eq, eq_iff, ◌==◌, find?, exists?, Bool-cases, Option-cases, both_false,
}
use super_mew.Db.Rows.{User}
use super_mew.Auth.Tokens.{RefreshToken, Ledger, has_hash, revoke_id, collides}
use super_mew.Auth.Service.{
  TokenGrant, Reply, granted, rejected, Fresh, new_row, commit_row, locked, rotate_token, rotate,
}
use super_mew.Auth.System.{Call, steps, all_avoid}
use super_mew.Auth.SingleUse.{
  Keyed, Spent, revoke_id-spends, append-Spent, locked-row, locked-revoked, steps-Spent,
}

-- a rejection, whatever its reason
abbrev pub is_rejected : Reply → Bool
is_rejected (rejected r) = true
is_rejected _ = false

-- a row that is added has another hash than those that are there
fresh_hash :
    (h id : String) (user_id now : ℕ) (ts : List RefreshToken) (stored new : RefreshToken)
    → find? (λ t. has_hash h t && t.user_id == user_id) ts ≡ some stored
    → exists? (collides new) (revoke_id id now ts) ≡ false
    → str_eq new.token_hash h ≡ false
unfolding find? revoke_id
fresh_hash h id user_id now [] stored new f e = cc
fresh_hash h id user_id now (t ∷ ts) stored new f e = elim (Bool-cases (has_hash h t)) [
  | inl k ↦
      let same = (eq_iff t.token_hash h).0 k in
      subst (λ i. str_eq new.token_hash i ≡ false) same
        (ground (arith, both_false (str_eq new.id t.id) (str_eq new.token_hash t.token_hash)))
  | inr k ↦ ground (arith, fresh_hash h id user_id now ts stored new)
]

module _ (hash : String → String) (access : String → String → ℕ → String)
    (expire_days retention_days : ℕ) where
  commit_row-spends :
      (h id : String) (now user_id : ℕ) (fresh : Fresh) (user : User) (stored : RefreshToken)
      (g : TokenGrant) (l l' : Ledger)
      → find? (λ t. has_hash h t && t.user_id == user_id) l.tokens ≡ some stored
      → Spent h (revoke_id id now l.tokens)
      → commit_row hash access expire_days fresh user (revoke_id id now l.tokens) l
        ≡ (granted g, l')
      → Spent h l'.tokens
  unfolding commit_row
  commit_row-spends h id now user_id fresh user stored g l l' f s e =
      let new = new_row hash access expire_days fresh user in
      elim (Bool-cases (exists? (collides new) (revoke_id id now l.tokens))) [
        | inl c ↦ ground arith
        | inr c ↦
            let o = fresh_hash h id user_id now l.tokens stored new f c in
            let after : l'.tokens ≡ revoke_id id now l.tokens ++ new ∷ [] = ground arith in
            subst (Spent h) (sym after) (append-Spent h new (revoke_id id now l.tokens) o s)
      ]

  -- a token that was exchanged is spent
  pub granted-Spent :
      (raw : String) (fresh : Fresh) (g : TokenGrant) (l l' : Ledger)
      → Keyed l.tokens
      → rotate hash access expire_days fresh (some raw) l ≡ (granted g, l')
      → Spent (hash raw) l'.tokens
  unfolding rotate rotate_token
  granted-Spent raw fresh g l l' k e = elim (Option-cases (locked (hash raw) l)) [
    | inl a ↦ ground arith
    | inr ((user, stored), a) ↦
        let (user_id, f) = locked-row (hash raw) l user stored a in
        ground (
          arith,
          commit_row-spends (hash raw) stored.id fresh.now user_id fresh user stored g l l' f
              (revoke_id-spends (hash raw) user_id fresh.now l.tokens stored k f),
        )
  ]

  -- a spent token is refused
  Spent-rotate :
      (raw : String) (fresh : Fresh) (l : Ledger)
      → Spent (hash raw) l.tokens
      → is_rejected (rotate hash access expire_days fresh (some raw) l).0 ≡ true
  unfolding rotate rotate_token
  Spent-rotate raw fresh l s = elim (Option-cases (locked (hash raw) l)) [
    | inl a ↦ ground arith
    | inr ((user, stored), a) ↦ ground (arith, locked-revoked (hash raw) l user stored s a)
  ]

  -- In a ledger where no two rows have one hash, once a rotation of a token has been granted,
  -- then after any further calls of the service and purges, none of which generates a token
  -- of the same hash, every rotation of that token is rejected.
  pub rotation_happens_once :
      (raw : String) (fresh later : Fresh) (g : TokenGrant) (cs : List Call) (l l' : Ledger)
      → Keyed l.tokens
      → rotate hash access expire_days fresh (some raw) l ≡ (granted g, l')
      → all_avoid hash access expire_days retention_days (hash raw) cs ≡ true
      → is_rejected
          (rotate hash access expire_days later
            (some raw)
            (steps hash access expire_days retention_days cs l')).0
        ≡ true
  rotation_happens_once raw fresh later g cs l l' k e o = Spent-rotate raw later _ (
      steps-Spent hash access expire_days retention_days (hash raw) cs l' o
        (granted-Spent raw fresh g l l' k e))
