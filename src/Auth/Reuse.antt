-- ===== src/Auth/Reuse.antt =====
-- What a replay, a logout and a grant do to a user's refresh tokens: `AuthTokenService` of
-- backend/auth/service.py.
use super_mew.Prelude.{
  ℕ, ◌+◌, String, some, Bool, true, false, ◌&&◌, ◌||◌, inl, inr, List, [], ◌∷◌, ◌++◌, ◌≡◌, refl,
  sym, subst, arith, str_eq, eq_iff, eq_refl, ◌==◌, find?, exists?, Bool-cases, Option-cases, leb,
}
use super_mew.Db.Rows.{User}
use super_mew.Auth.Tokens.{
  RefreshToken, Ledger, has_hash, has_user, revoke, revoke_id, collides, token_user_id, lock_user,
  lock_token,
}
use super_mew.Auth.Service.{
  TokenGrant, granted, Fresh, is_opaque, new_row, grant_of, commit_row, issue, locked, rotate_token,
  rotate, days,
}

-- a row stays the first of a kind, which a revocation does not change
find-revoke_id :
    (p : RefreshToken → Bool) (now : ℕ) (ts more : List RefreshToken) (stored : RefreshToken)
    → ((t : RefreshToken) → p (revoke now t) ≡ p t)
    → find? p ts ≡ some stored
    → find? p (revoke_id stored.id now ts ++ more) ≡ some (revoke now stored)
unfolding find? revoke_id
find-revoke_id p now [] more stored i f = cc
find-revoke_id p now (t ∷ ts) more stored i f = elim (Bool-cases (p t)) [
  | inl e ↦
      let same : t ≡ stored = ground arith in
      subst (λ s. find? p (revoke_id s.id now (t ∷ ts) ++ more) ≡ some (revoke now s)) same
        (ground (arith, eq_refl t.id, i t))
  | inr e ↦ ground (arith, find-revoke_id p now ts more stored i, i t)
]

-- a row that is appended is the first of a kind that no row was of
find-append :
    (p : RefreshToken → Bool) (ts : List RefreshToken) (new : RefreshToken)
    → exists? p ts ≡ false
    → p new ≡ true
    → find? p (ts ++ new ∷ []) ≡ some new
unfolding find?
find-append p [] new e n = ground arith
find-append p (t ∷ ts) new e n = ground (arith, find-append p ts new)

-- the first of a kind is the first of a narrower kind that it is of
find-narrow :
    (p q : RefreshToken → Bool) (ts : List RefreshToken) (t : RefreshToken)
    → find? p ts ≡ some t
    → q t ≡ true
    → find? (λ x. p x && q x) ts ≡ some t
unfolding find?
find-narrow p q [] t f e = cc
find-narrow p q (u ∷ ts) t f e = elim (Bool-cases (p u)) [
  | inl k ↦
      let same : u ≡ t = ground arith in
      subst (λ x. find? (λ x. p x && q x) (u ∷ ts) ≡ some x) same
        (ground (arith, subst (λ x. q x ≡ true) (sym same) e))
  | inr k ↦ ground (arith, find-narrow p q ts t)
]

-- the locked rows, by their queries
pub locked-parts :
    (h : String) (l : Ledger) (user : User) (stored : RefreshToken)
    → locked h l ≡ some (user, stored)
    → (find? (has_hash h) l.tokens ≡ some stored)
      × (find? (has_user stored.user_id) l.users ≡ some user)
      × (find? (λ t. has_hash h t && t.user_id == stored.user_id) l.tokens ≡ some stored)
unfolding locked token_user_id lock_user lock_token
locked-parts h l user stored e = elim (Option-cases (find? (has_hash h) l.tokens)) [
  | inl a ↦ cc (rw (a, locked, token_user_id) at e)
  | inr (t, a) ↦
      let narrow =
        find-narrow (has_hash h) (λ x. x.user_id == t.user_id) l.tokens t a (ground arith) in
      let of_user : find? (has_user t.user_id) l.users ≡ some user = ground arith in
      let same : t ≡ stored = ground (arith, narrow) in
      subst
        (λ x.
          (find? (has_hash h) l.tokens ≡ some x)
          × (find? (has_user x.user_id) l.users ≡ some user)
          × (find? (λ t. has_hash h t && t.user_id == x.user_id) l.tokens ≡ some x))
        same (a, of_user, narrow)
]

parts-locked :
    (h : String) (l : Ledger) (user : User) (stored : RefreshToken)
    → find? (has_hash h) l.tokens ≡ some stored
    → find? (has_user stored.user_id) l.users ≡ some user
    → locked h l ≡ some (user, stored)
unfolding locked token_user_id lock_user lock_token
parts-locked h l user stored a b = ground (
  arith,
  find-narrow (has_hash h) (λ x. x.user_id == stored.user_id) l.tokens stored a (ground arith),
)

-- the rows of a token are locked again after its revocation
relocked :
    (h : String) (now : ℕ) (l : Ledger) (user : User) (stored : RefreshToken)
    (more : List RefreshToken)
    → locked h l ≡ some (user, stored)
    → locked h (record l { tokens = revoke_id stored.id now l.tokens ++ more })
      ≡ some (user, revoke now stored)
relocked h now l user stored more e =
    let (a, b, _) = locked-parts h l user stored e in
    parts-locked h _ user (revoke now stored)
      (find-revoke_id (has_hash h) now l.tokens more stored (λ t. refl) a) b

absent-hash :
    (new : RefreshToken) (ts : List RefreshToken)
    → exists? (collides new) ts ≡ false
    → exists? (has_hash new.token_hash) ts ≡ false
absent-hash new [] e = refl
absent-hash new (t ∷ ts) e = ground (
  arith,
  absent-hash new ts,
  (eq_iff t.token_hash new.token_hash).0,
  (eq_iff new.token_hash t.token_hash).1,
)

revoke_id-collides :
    (new : RefreshToken) (id : String) (now : ℕ) (ts : List RefreshToken)
    → exists? (collides new) (revoke_id id now ts) ≡ exists? (collides new) ts
unfolding revoke_id
revoke_id-collides new id now [] = refl
revoke_id-collides new id now (t ∷ ts) = ground (arith, revoke_id-collides new id now ts)

find-id :
    (id : ℕ) (us : List User) (user : User) → find? (has_user id) us ≡ some user → user.id ≡ id
unfolding find?
find-id id [] user f = cc
find-id id (u ∷ us) user f = ground (arith, find-id id us user)

user-found :
    (user_id : ℕ) (l : Ledger) (user : User)
    → lock_user user_id l ≡ some user
    → find? (has_user user.id) l.users ≡ some user
unfolding lock_user
user-found user_id l user a =
    subst (λ i. find? (has_user i) l.users ≡ some user) (sym (find-id user_id l.users user a)) a

module _ (hash : String → String) (access : String → String → ℕ → String) (expire_days : ℕ) where
  issued_ledger :
      (fresh : Fresh) (user_id : ℕ) (g : TokenGrant) (l l' : Ledger)
      → issue hash access expire_days fresh user_id l ≡ (granted g, l')
      → (user : User) × (lock_user user_id l ≡ some user)
        × (is_opaque fresh.token ≡ true)
        × (exists? (collides (new_row hash access expire_days fresh user)) l.tokens ≡ false)
        × (l' ≡ record l { tokens = l.tokens ++ new_row hash access expire_days fresh user ∷ [] })
        × (g.refresh_token ≡ fresh.token)
  unfolding issue commit_row
  issued_ledger fresh user_id g l l' e = elim (Option-cases (lock_user user_id l)) [
    | inl a ↦ ground arith
    | inr (user, a) ↦ (user, a, ground arith, ground arith, ground arith, ground arith)
  ]

  -- A token that `issue` grants is accepted by `rotate` at any time before its expiry, in the
  -- ledger that `issue` leaves, if the replacement is opaque and its identifier and its hash
  -- clash with no row; the new grant is for the same user name.
  pub new_token_accepted :
      (fresh later : Fresh) (user_id : ℕ) (g : TokenGrant) (l l' : Ledger)
      → issue hash access expire_days fresh user_id l ≡ (granted g, l')
      → leb (fresh.now + days expire_days) later.now ≡ false
      → is_opaque later.token ≡ true
      → exists? (λ t. str_eq later.id t.id || str_eq (hash later.token) t.token_hash) l'.tokens
        ≡ false
      → (g' : TokenGrant) × ((rotate hash access expire_days later (some g.refresh_token) l').0
          ≡ granted g')
        × (g'.username ≡ g.username)
  unfolding rotate rotate_token commit_row issue
  new_token_accepted fresh later user_id g l l' e x o c =
      let (user, a, opaque, apart, after, token) = issued_ledger fresh user_id g l l' e in
      let new = new_row hash access expire_days fresh user in
      let first : find? (has_hash (hash fresh.token)) l'.tokens ≡ some new =
        subst (λ m. find? (has_hash (hash fresh.token)) m.tokens ≡ some new) (sym after)
          (find-append (has_hash (hash fresh.token)) l.tokens new (absent-hash new l.tokens apart)
            (eq_refl (hash fresh.token))) in
      let found : find? (has_user user.id) l'.users ≡ some user =
        subst (λ m. find? (has_user user.id) m.users ≡ some user) (sym after)
          (user-found user_id l user a) in
      let stored = parts-locked (hash fresh.token) l' user new first found in
      let apart' =
        revoke_id-collides (new_row hash access expire_days later user) new.id later.now
          l'.tokens in
      (grant_of hash access expire_days later user, ground arith, ground arith)
