-- ===== src/RateLimits/Refinement/Adapters.antt =====
-- Both adapters over any calls whose times do not go back.
use super_mew.Prelude.{
  ℕ, ◌≤◌, ◌≡◌, refl, sym, ap, ◌∙◌, String, none, some, false, List, [], ◌∷◌, map,
}
use super_mew.RateLimits.Contracts.{RateLimitPolicy, IsPolicy, RateLimitSnapshot, Outcome, done}
use super_mew.RateLimits.Memory.{InMemory, opened_memory, consume}
use super_mew.RateLimits.Redis.{Redis, IsRedis, Field, RedisRateLimit, eval_window}
use super_mew.RateLimits.Counter.{
  Call, Counter, no_calls, charged, answer, answers, admitted, no_calls-admitted,
}
use super_mew.RateLimits.Refinement.{InOrder}
use super_mew.RateLimits.Refinement.Memory.{
  Windows, Counts, answered-answer, answered-after, after-Counts, after, no_calls-Counts,
}
use super_mew.RateLimits.Refinement.Redis.{
  Stores, window-replied, read-replied, written, written-Stores, no_calls-Stores,
}

-- the replies of a new adapter to calls, where every key has its policy
unfoldable pub memory_replies :
    (String → RateLimitPolicy) → List Call → InMemory → List (Outcome RateLimitSnapshot)
memory_replies policy [] m = []
memory_replies policy (call ∷ calls) m =
    let (reply, m') = consume (some call.at) call.key (policy call.key) call.cost m in
    reply ∷ memory_replies policy calls m'

-- the replies of the Redis adapter
unfoldable pub redis_replies :
    {S : Type 0}
    → Redis S
    → (String → RateLimitPolicy)
    → List Call
    → RedisRateLimit S
    → List (Outcome RateLimitSnapshot)
redis_replies r policy [] a = []
redis_replies r policy (call ∷ calls) a =
    let (reply, a') = eval_window r (some call.at) call.key (policy call.key) call.cost a in
    reply ∷ redis_replies r policy calls a'

module _ (policy : String → RateLimitPolicy) (valid : (k : String) → IsPolicy (policy k)) where
  memory_from :
      (now : ℕ) (w : Windows) (c : Counter) (calls : List Call)
      → InOrder now calls
      → Counts policy valid now w c
      → memory_replies policy calls (record { windows = w; closed = false })
        ≡ map done (answers policy c calls)
  unfolding memory_replies answers consume
  memory_from now w c [] order counts = refl
  memory_from now w c (call ∷ calls) order counts =
      rw (answered-answer policy valid now w c call order.0 counts) (
        rw (answered-after policy valid now w c call order.0 counts) (
          ap (λ rest. done (answer policy c call) ∷ rest)
            (memory_from call.at (after policy valid now w c call) (charged policy c call) calls
              order.1 (after-Counts policy valid now w c call order.0 counts))))

  memory-answers :
      (calls : List Call)
      → InOrder 0 calls
      → memory_replies policy calls opened_memory ≡ map done (answers policy no_calls calls)
  memory-answers calls order =
      memory_from 0 opened_memory.windows no_calls calls order (no_calls-Counts policy valid)

  -- A new in-memory adapter, under policies in their bounds and at calls whose times do not go
  -- back, answers every call, and what it admits for a key in a window costs no more than the
  -- limit of the key's policy.
  pub memory_within_limit :
      (calls : List Call)
      → InOrder 0 calls
      → (snapshots : List RateLimitSnapshot) × (memory_replies policy calls opened_memory
          ≡ map done snapshots)
        × ((k : String) (n : ℕ) → admitted policy k n calls snapshots ≤ (policy k).limit)
  memory_within_limit calls order = (
    answers policy no_calls calls,
    memory-answers calls order,
    λ k n. no_calls-admitted policy k n calls,
  )

  module _ {S : Type 0} (r : Redis S) (laws : IsRedis r) where
    redis_from :
        (now : ℕ) (s : S) (c : Counter) (calls : List Call)
        → InOrder now calls
        → Stores r laws policy valid now s c
        → redis_replies r policy calls (record { store = s; closed = false })
          ≡ map done (answers policy c calls)
    unfolding redis_replies answers eval_window
    redis_from now s c [] order stores = refl
    redis_from now s c (call ∷ calls) order stores =
        rw (window-replied r laws policy valid now s c call order.0 stores) (
          ap
            (λ a.
              a
              ∷ redis_replies r policy calls
                  (record { store = written r laws policy valid now s c call; closed = false }))
            (read-replied r laws policy valid now s c call)
          ∙ ap (λ rest. done (answer policy c call) ∷ rest)
              (redis_from call.at (written r laws policy valid now s c call) (charged policy c call)
                calls order.1 (written-Stores r laws policy valid now s c call order.0 stores)))

    -- On a store that behaves as Redis documents and holds no key, the Redis adapter answers
    -- calls, under policies in their bounds and at times that do not go back, exactly as a new
    -- in-memory adapter does.
    pub redis-memory :
        (empty : S)
        → ((t : ℕ) (k : String) (f : Field) → r.hget t k f empty ≡ none)
        → (calls : List Call) → InOrder 0 calls
        → redis_replies r policy calls (record { store = empty; closed = false })
          ≡ memory_replies policy calls opened_memory
    redis-memory empty none_held calls order =
        redis_from 0 empty no_calls calls order
          (no_calls-Stores r laws policy valid empty none_held)
        ∙ sym (memory-answers calls order)
