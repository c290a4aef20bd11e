-- ===== src/Providers/Refusals.antt =====
-- What backend/providers/core.py makes of the exceptions of a provider.
use super_mew.Prelude.{
  ℕ, zero, suc, ◌≤◌, Option, none, some, Bool, true, false, not, ◌&&◌, ◌||◌, List, [], ◌∷◌, length,
  leb, ltb, ◌==◌, ◌≡◌, refl, arith, Option-cases, Bool-cases, eq_of_test, subst, inl, inr,
}
use super_mew.Providers.Codes.{
  ProviderOperation, embedding, vector_search, rerank, model, tool, code_spec, operation_profile,
}
use super_mew.Providers.Exceptions.{
  Link, next, seen?, chain_from, exception_chain, status_along, failure_code,
}

-- the statuses that are tried again
abbrev pub is_transient : Option ℕ → Bool
is_transient none = true
is_transient (some n) = ltb n 400 || leb 500 n || n == 408 || n == 429

profile_retryable :
    (o : ProviderOperation)
    → ((code_spec (operation_profile o).timeout).retryable ≡ true)
      × ((code_spec (operation_profile o).rate_limited).retryable ≡ true)
      × ((code_spec (operation_profile o).unavailable).retryable ≡ true)
profile_retryable embedding = (refl, refl, refl)
profile_retryable vector_search = (refl, refl, refl)
profile_retryable rerank = (refl, refl, refl)
profile_retryable model = (refl, refl, refl)
profile_retryable tool = (refl, refl, refl)

-- For each operation, the code that is chosen for an exception along a chain is one to retry
-- exactly if the status found along the chain is none, is outside the range from 400 to 499, or
-- is 408 or 429.
pub failure_code-is_transient :
    (o : ProviderOperation) (links : ℕ → Link) (chain : List ℕ)
    → (code_spec (failure_code (operation_profile o) links chain)).retryable
      ≡ is_transient (status_along links chain)
unfolding failure_code
failure_code-is_transient o links chain =
    let (x, y, z) = profile_retryable o in
    elim (Option-cases (status_along links chain)) [
      | inl e ↦ ground arith
      | inr (n, e) ↦ ground arith
    ]

-- no exception twice
abbrev pub distinct : List ℕ → Bool
distinct [] = true
distinct (i ∷ is) = not (seen? i is) && distinct is

chain_from_apart :
    (links : ℕ → Link) (room : ℕ) (seen : List ℕ) (o : Option ℕ) (j : ℕ)
    → seen? j seen ≡ true
    → seen? j (chain_from links room seen o) ≡ false
unfolding chain_from
chain_from_apart links room seen none j h = refl
chain_from_apart links zero seen (some i) j h = refl
chain_from_apart links (suc room) seen (some i) j h =
    let rest = chain_from_apart links room (i ∷ seen) (next (links i)) j (ground arith) in
    elim (Bool-cases (j == i)) [
      | inl e ↦ let known = subst (λ k. seen? k seen ≡ true) (eq_of_test j i e) h in ground arith
      | inr e ↦ ground arith
    ]

chain_from_lem :
    (links : ℕ → Link) (room : ℕ) (seen : List ℕ) (o : Option ℕ)
    → (distinct (chain_from links room seen o) ≡ true)
      × (length (chain_from links room seen o) ≤ room)
unfolding chain_from
chain_from_lem links room seen none = (refl, omega arith)
chain_from_lem links zero seen (some i) = (refl, omega arith)
chain_from_lem links (suc room) seen (some i) =
    let (x, y) = chain_from_lem links room (i ∷ seen) (next (links i)) in
    let z = chain_from_apart links room (i ∷ seen) (next (links i)) i (ground arith) in
    (ground arith, ground arith)

-- The walk along the causes of an exception, whether they form a cycle or not, meets no
-- exception twice and 16 at most.
pub exception_chain-distinct :
    (links : ℕ → Link) (exc : ℕ)
    → (distinct (exception_chain links exc) ≡ true) × (length (exception_chain links exc) ≤ 16)
unfolding exception_chain
exception_chain-distinct links exc = chain_from_lem links 16 [] (some exc)
