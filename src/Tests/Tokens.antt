-- ===== src/Tests/Tokens.antt =====
-- Concrete runs of backend/auth/service.py. The hash is the token itself.
use super_mew.Prelude.{
  ℕ, String, some, true, false, every, len, find?, count, select, exists?, List, [], ◌∷◌, ◌≡◌, ◌≢◌,
  ◌⊎◌, refl, arith,
}
use super_mew.Db.Rows.{User}
use super_mew.Auth.Tokens.{
  RefreshToken, Ledger, lock_user, revoke, revoke_id, revoke_live, lock_token, token_user_id,
}
use super_mew.Auth.Service.{
  replay, TokenGrant, granted, rejected, Fresh, is_opaque, is_opaque_char, new_row, issue, rotate,
  logout, logout_all, commit_row, rotate_token, locked,
}
use super_mew.Auth.Cleanup.{insert_row, order_rows, purge_refresh_token_batch}
use super_mew.Auth.System.{issues, rotates, logs_out, purges, Call, step, steps, all_avoid}
use super_mew.Auth.SingleUse.{Keyed}
use super_mew.Auth.Keys.{steps-Keyed}
use super_mew.Auth.Rotation.{is_rejected, rotation_happens_once}
use super_mew.Auth.Reuse.{new_token_accepted}
use super_mew.Auth.Replay.{usable, replay_revokes_all}

abbrev token_a : String
token_a = "aaaaaaaaaaaaaaaaaaaaaaaaaaaaaaaaaaaaaaaaaaaaaaaaaaaaaaaaaaaaaaaa"

abbrev token_b : String
token_b = "bbbbbbbbbbbbbbbbbbbbbbbbbbbbbbbbbbbbbbbbbbbbbbbbbbbbbbbbbbbbbbbb"

abbrev token_c : String
token_c = "cccccccccccccccccccccccccccccccccccccccccccccccccccccccccccccccc"

abbrev token_d : String
token_d = "dddddddddddddddddddddddddddddddddddddddddddddddddddddddddddddddd"

abbrev token_e : String
token_e = "eeeeeeeeeeeeeeeeeeeeeeeeeeeeeeeeeeeeeeeeeeeeeeeeeeeeeeeeeeeeeeee"

abbrev same : String → String
same x = x

abbrev signed : String → String → ℕ → String
signed username role now = username

abbrev ada : User
ada = record { id = 1; username = "ada"; role = "user" }

abbrev first : Fresh
first = record { now = 10; id = "r1"; token = token_a }

abbrev second : Fresh
second = record { now = 20; id = "r2"; token = token_b }

abbrev third : Fresh
third = record { now = 30; id = "r3"; token = token_c }

abbrev empty : Ledger
empty = record { users = ada ∷ []; tokens = [] }

abbrev one_token : Ledger
one_token = record { users = ada ∷ []; tokens = new_row same signed 1 first ada ∷ [] }

abbrev two_tokens : Ledger
two_tokens = record {
  users = ada ∷ [];
  tokens = revoke 20 (new_row same signed 1 first ada) ∷ new_row same signed 1 second ada ∷ [];
}

abbrev grant : String → TokenGrant
grant t = record { access_token = "ada"; refresh_token = t; username = "ada"; role = "user" }

unfoldable opened_tokens : Unit {0}
unfolding issue commit_row lock_user lock_token token_user_id locked rotate rotate_token revoke_id
    revoke_live logout logout_all purge_refresh_token_batch step steps is_opaque is_opaque_char
    every len find? count select insert_row order_rows
opened_tokens = tt

issued : issue same signed 1 first 1 empty ≡ (granted (grant token_a), one_token)
unfolding opened_tokens
issued = refl

rotated :
    rotate same signed 1 second (some token_a) one_token ≡ (granted (grant token_b), two_tokens)
unfolding opened_tokens
rotated = refl

rotation_happens_once_example :
    is_rejected
      (rotate same signed 1 third
        (some token_a)
        (steps same signed 1 7 (logs_out 25 (some token_b) ∷ purges 26 100 ∷ []) two_tokens)).0
    ≡ true
rotation_happens_once_example =
    rotation_happens_once same signed 1 7 token_a second third (grant token_b)
      (logs_out 25 (some token_b) ∷ purges 26 100 ∷ []) one_token two_tokens refl rotated refl

steps-Keyed_example :
    Keyed (steps same signed 1 7 (issues first 1 ∷ rotates second (some token_a) ∷ []) empty).tokens
steps-Keyed_example =
    steps-Keyed same signed 1 7 (issues first 1 ∷ rotates second (some token_a) ∷ []) empty refl

-- the new token is used by its owner, then the old one is sent again
abbrev between : List Call
between = rotates third (some token_b) ∷ purges 31 100 ∷ []

abbrev fourth : Fresh
fourth = record { now = 40; id = "r4"; token = token_d }

abbrev fifth : Fresh
fifth = record { now = 50; id = "r5"; token = token_e }

was_locked :
    locked token_a (steps same signed 1 7 between two_tokens)
    ≡ some (ada, revoke 20 (new_row same signed 1 first ada))
unfolding opened_tokens
was_locked = refl

between_avoids : all_avoid same signed 1 7 token_a between ≡ true
between_avoids = refl

replay_revokes_all_example :
    ((rotate same signed 1 fourth (some token_a) (steps same signed 1 7 between two_tokens)).0
      ≡ rejected replay)
    × (exists?
          (usable 1 40)
          (rotate same signed 1 fourth
            (some token_a)
            (steps same signed 1 7 between two_tokens)).1.tokens
        ≡ false)
    × ((is_rejected
            (rotate same signed 1 fifth
              (some token_c)
              (rotate same signed 1 fourth
                (some token_a)
                (steps same signed 1 7 between two_tokens)).1).0
          ≡ true)
        ⊎ ((u : User) × (s : RefreshToken) × (locked token_c
                (rotate same signed 1 fourth
                  (some token_a)
                  (steps same signed 1 7 between two_tokens)).1
              ≡ some (u, s))
            × (u.id ≢ 1)))
replay_revokes_all_example =
    replay_revokes_all same signed 1 7 token_a token_c second fourth fifth (grant token_b) between
      one_token two_tokens ada (revoke 20 (new_row same signed 1 first ada)) refl rotated
      between_avoids was_locked (omega arith) (omega arith)

opaque_b : is_opaque token_b ≡ true
unfolding opened_tokens
opaque_b = refl

new_token_accepted_example :
    (g' : TokenGrant) × ((rotate same signed 1 second (some token_a) one_token).0 ≡ granted g')
    × (g'.username ≡ "ada")
new_token_accepted_example =
    new_token_accepted same signed 1 first second 1 (grant token_a) empty one_token issued refl
      opaque_b refl
