-- ===== src/Auth/Replay.antt =====
-- What a replay of a refresh token does: `AuthTokenService.rotate` of backend/auth/service.py.
use super_mew.Prelude.{
  ℕ, String, Option, none, some, Bool, true, false, ◌&&◌, inl, inr, ◌⊎◌, List, [], ◌∷◌, ◌≡◌, ◌≢◌,
  refl, sym, ap, subst, arith, ◌==◌, find?, exists?, Bool-cases, Option-cases, ltb, ◌≤◌, ◌<◌,
}
use super_mew.Db.Rows.{User}
use super_mew.Auth.Tokens.{RefreshToken, Ledger, has_hash, has_user, revoke_live}
use super_mew.Auth.Service.{
  replay, TokenGrant, granted, rejected, Fresh, is_opaque, locked, rotate_token, rotate,
}
use super_mew.Auth.System.{Call, steps, all_avoid}
use super_mew.Auth.SingleUse.{Keyed, locked-revoked, steps-Spent}
use super_mew.Auth.Reuse.{locked-parts}
use super_mew.Auth.Rotation.{is_rejected, granted-Spent}

-- a row of a user that is neither revoked nor past its date
abbrev open_row : Option ℕ → ℕ → ℕ → Bool
open_row none expires now = ltb now expires
open_row (some revoked) expires now = false

abbrev pub usable : ℕ → ℕ → RefreshToken → Bool
usable user_id now t = t.user_id == user_id && open_row t.revoked_at t.expires_at now

revoke_live-usable :
    (user_id now : ℕ) (ts : List RefreshToken)
    → exists? (usable user_id now) (revoke_live user_id now ts) ≡ false
unfolding revoke_live
revoke_live-usable user_id now [] = refl
revoke_live-usable user_id now (t ∷ ts) =
    let rest = revoke_live-usable user_id now ts in
    elim (Option-cases t.revoked_at) [ inl e ↦ ground arith | inr (d, e) ↦ ground arith ]

-- a row that is found where none is usable
find-usable :
    (user_id now : ℕ) (p : RefreshToken → Bool) (ts : List RefreshToken) (t : RefreshToken)
    → exists? (usable user_id now) ts ≡ false
    → find? p ts ≡ some t
    → usable user_id now t ≡ false
unfolding find?
find-usable user_id now p [] t n f = cc
find-usable user_id now p (u ∷ ts) t n f = elim (Bool-cases (p u)) [
  | inl e ↦
      let same : u ≡ t = ground arith in
      subst (λ x. usable user_id now x ≡ false) same (ground arith)
  | inr e ↦ find-usable user_id now p ts t (ground arith) (ground arith)
]

lock_user-id :
    (i : ℕ) (us : List User) (user : User) → find? (has_user i) us ≡ some user → user.id == i ≡ true
unfolding find?
lock_user-id i [] user f = cc
lock_user-id i (u ∷ us) user f = ground (arith, lock_user-id i us user)

module _ (hash : String → String) (access : String → String → ℕ → String)
    (expire_days retention_days : ℕ) where
  granted-opaque :
      (raw : String) (fresh : Fresh) (g : TokenGrant) (l l' : Ledger)
      → rotate hash access expire_days fresh (some raw) l ≡ (granted g, l')
      → is_opaque raw ≡ true
  unfolding rotate
  granted-opaque raw fresh g l l' e = ground arith

  -- a row of a revoked user is refused
  unusable-rejected :
      (raw : String) (now : ℕ) (again : Fresh) (l : Ledger) (user : User)
      → exists? (usable user.id now) l.tokens ≡ false
      → now ≤ again.now
      → (is_rejected (rotate hash access expire_days again (some raw) l).0 ≡ true)
        ⊎ ((u : User) × (s : RefreshToken) × (locked (hash raw) l ≡ some (u, s)) × (u.id ≢ user.id))
  unfolding rotate rotate_token
  unusable-rejected raw now again l user n o = elim (Option-cases (locked (hash raw) l)) [
    | inl a ↦ inl (ground arith)
    | inr ((u, s), a) ↦ elim (Bool-cases (u.id == user.id)) [
      | inr d ↦ inr (u, s, a, λ e. ground arith)
      | inl same ↦
          let (f, g, _) = locked-parts (hash raw) l u s a in
          let mine = lock_user-id s.user_id l.users u g in
          let dead = find-usable user.id now (has_hash (hash raw)) l.tokens s n f in
          let own : (s.user_id == user.id) ≡ true = ground arith in
          inl
            (elim (Option-cases s.revoked_at) [ inl e ↦ ground arith | inr (d, e) ↦ ground arith ])
    ]
  ]

  -- In a ledger where no two rows have one hash, once a rotation of a token is granted, and
  -- after any further calls and purges, none of which generates a token of the same hash: if
  -- the token is sent again, and its row is still there with its user and not expired, then it
  -- is rejected as a replay; in the ledger that this leaves no row of the user is unrevoked and
  -- not yet expired; and there every token that is presented then or later is rejected, or is
  -- of another user.
  pub replay_revokes_all :
      (raw other : String) (fresh later again : Fresh) (g : TokenGrant) (cs : List Call)
      (l l' : Ledger) (user : User) (stored : RefreshToken)
      → Keyed l.tokens
      → rotate hash access expire_days fresh (some raw) l ≡ (granted g, l')
      → all_avoid hash access expire_days retention_days (hash raw) cs ≡ true
      → locked (hash raw) (steps hash access expire_days retention_days cs l') ≡ some (user, stored)
      → later.now < stored.expires_at
      → later.now ≤ again.now
      → ((rotate hash access expire_days later
            (some raw)
            (steps hash access expire_days retention_days cs l')).0
          ≡ rejected replay)
        × (exists?
              (usable user.id later.now)
              (rotate hash access expire_days later
                (some raw)
                (steps hash access expire_days retention_days cs l')).1.tokens
            ≡ false)
        × ((is_rejected
                (rotate hash access expire_days again
                  (some other)
                  (rotate hash access expire_days later
                    (some raw)
                    (steps hash access expire_days retention_days cs l')).1).0
              ≡ true)
            ⊎ ((u : User) × (s : RefreshToken) × (locked
                    (hash other)
                    (rotate hash access expire_days later
                      (some raw)
                      (steps hash access expire_days retention_days cs l')).1
                  ≡ some (u, s))
                × (u.id ≢ user.id)))
  unfolding rotate rotate_token
  replay_revokes_all raw other fresh later again g cs l l' user stored k e o a x y =
      let m = steps hash access expire_days retention_days cs l' in
      let opaque = granted-opaque raw fresh g l l' e in
      let spent =
        steps-Spent hash access expire_days retention_days (hash raw) cs l' o
          (granted-Spent hash access expire_days retention_days raw fresh g l l' k e) in
      let revoked = locked-revoked (hash raw) m user stored spent a in
      let swept = revoke_live-usable user.id later.now m.tokens in
      let left = record m { tokens = revoke_live user.id later.now m.tokens } in
      let reply : rotate hash access expire_days later (some raw) m ≡ (rejected replay, left) =
        ground arith in
      let after = sym (ap (λ r. r.1) reply) in
      (
        ap (λ r. r.0) reply,
        subst (λ z. exists? (usable user.id later.now) z.tokens ≡ false) after swept,
        subst
            (λ z.
              (is_rejected (rotate hash access expire_days again (some other) z).0 ≡ true)
              ⊎ ((u : User) × (s : RefreshToken) × (locked (hash other) z ≡ some (u, s))
                  × (u.id ≢ user.id)))
            after (unusable-rejected other later.now again left user swept y),
      )
