-- ===== src/Auth/System.antt =====
-- The life of the ledger: the calls that its clients make, in the order that the locks give them.
use super_mew.Prelude.{ℕ, String, Option, Bool, true, ◌&&◌, not, List, [], ◌∷◌, str_eq}
use super_mew.Auth.Tokens.{Ledger}
use super_mew.Auth.Service.{Fresh, issue, rotate, logout, logout_all}
use super_mew.Auth.Cleanup.{purge_refresh_token_batch}

pub data Call : Type 0 where
  issues : Fresh → ℕ → Call
  rotates : Fresh → Option String → Call
  logs_out : ℕ → Option String → Call
  logs_out_all : ℕ → ℕ → Call
  purges : ℕ → ℕ → Call

module _ (hash : String → String) (access : String → String → ℕ → String)
    (expire_days retention_days : ℕ) where
  -- the ledger after a call, whether it returns or raises
  unfoldable pub step : Call → Ledger → Ledger
  step (issues fresh user_id) l = (issue hash access expire_days fresh user_id l).1
  step (rotates fresh raw) l = (rotate hash access expire_days fresh raw l).1
  step (logs_out now raw) l = (logout hash access expire_days now raw l).1
  step (logs_out_all now user_id) l = (logout_all now user_id l).1
  step (purges now batch_size) l = (purge_refresh_token_batch retention_days now batch_size l).1

  unfoldable pub steps : List Call → Ledger → Ledger
  steps [] l = l
  steps (c ∷ cs) l = steps cs (step c l)

  -- a call generates no token of a hash
  abbrev pub avoids : String → Call → Bool
  avoids h (issues fresh _) = not (str_eq (hash fresh.token) h)
  avoids h (rotates fresh _) = not (str_eq (hash fresh.token) h)
  avoids h _ = true

  abbrev pub all_avoid : String → List Call → Bool
  all_avoid h [] = true
  all_avoid h (c ∷ cs) = avoids h c && all_avoid h cs
