-- ===== src/Providers/Exceptions.antt =====
-- What backend/providers/core.py reads of an exception: `_exception_chain`, `_status_code`,
-- `_retry_after_seconds`, `_is_timeout` and `classify_provider_exception`. An exception is a place
-- in a heap. `links` is what the code asks of it.
use super_mew.Prelude.{
  ℕ, zero, suc, String, Option, none, some, Bool, false, not, ◌&&◌, ◌||◌, List, [], ◌∷◌, exists?, ℤ,
  leb, ltb, ◌==◌, str_eq, if◌then◌else◌,
}
use super_mew.Providers.Codes.{
  ProviderCode, policy_denied, provider_authentication_failed, provider_request_invalid,
  OperationProfile, operation_profile,
}
use super_mew.Providers.Error.{
  ProviderCallContext, ProviderError, provider_error, with_attempts, given,
}

-- an attribute as `int` reads it: absent or of no number, or a number
abbrev pub Attribute : Type 0
Attribute = Option ℕ

-- an exception: its explicit cause and its context, the attributes `status_code` and `status` of it
-- and of its response, what its `retry_after_seconds`, its `retry_after` and the header that
-- `_headers` finds from it say after parsing, and whether a class of it is named as a timeout
pub record Link : Type 0 where
  pub cause : Option ℕ
  pub context : Option ℕ
  pub statuses : List Attribute
  pub retries : List (Option ℕ)
  pub timeout : Bool

-- `current.__cause__ or current.__context__`
abbrev pub next : Link → Option ℕ
next l = elim (l.cause) [ some i ↦ some i | none ↦ l.context ]

abbrev pub seen? : ℕ → List ℕ → Bool
seen? i seen = exists? (λ j. i == j) seen

-- `_exception_chain` from an exception that is or is not, where `room` more may be seen
unfoldable pub chain_from : (ℕ → Link) → ℕ → List ℕ → Option ℕ → List ℕ
chain_from links room seen none = []
chain_from links zero seen (some i) = []
chain_from links (suc room) seen (some i) =
    let rest = chain_from links room (i ∷ seen) (next (links i)) in
    if seen? i seen then [] else i ∷ rest

-- `_exception_chain`
unfoldable pub exception_chain : (ℕ → Link) → ℕ → List ℕ
exception_chain links exc = chain_from links 16 [] (some exc)

-- the first status of a list that HTTP has
unfoldable pub first_status : List Attribute → Option ℕ
first_status [] = none
first_status (none ∷ vs) = first_status vs
first_status (some v ∷ vs) =
    let rest = first_status vs in if leb 100 v && leb v 599 then some v else rest

abbrev pub or_else {ℓ} : {A : Type ℓ} → Option A → Option A → Option A
or_else none y = y
or_else (some x) y = some x

-- `_status_code`
unfoldable pub status_along : (ℕ → Link) → List ℕ → Option ℕ
status_along links [] = none
status_along links (i ∷ is) = or_else (first_status (links i).statuses) (status_along links is)

unfoldable pub first_retry : List (Option ℕ) → Option ℕ
first_retry [] = none
first_retry (v ∷ vs) = or_else v (first_retry vs)

-- `_retry_after_seconds`
unfoldable pub retry_along : (ℕ → Link) → List ℕ → Option ℕ
retry_along links [] = none
retry_along links (i ∷ is) = or_else (first_retry (links i).retries) (retry_along links is)

abbrev pub is_status : Option ℕ → ℕ → Bool
is_status none n = false
is_status (some m) n = m == n

-- `_is_timeout`
abbrev pub is_timeout : (ℕ → Link) → List ℕ → Option ℕ → Bool
is_timeout links chain status =
    is_status status 408 || is_status status 504 || exists? (λ i. (links i).timeout) chain

-- `400 <= status_code < 500 and status_code != 408`
abbrev pub is_refusal : Option ℕ → Bool
is_refusal none = false
is_refusal (some n) = leb 400 n && ltb n 500 && not (n == 408)

-- the code of an exception of a status along a chain
unfoldable pub failure_code : OperationProfile → (ℕ → Link) → List ℕ → ProviderCode
failure_code profile links chain =
    let status = status_along links chain in
    if is_status status 429
    then profile.rate_limited
    else if is_status status 401 || is_status status 403
    then provider_authentication_failed
    else if is_refusal status
    then provider_request_invalid
    else if is_timeout links chain status
    then profile.timeout
    else profile.unavailable

-- an exception: the types that are told apart
pub data Exception : Type 0 where
  -- `asyncio.CancelledError`, or no `Exception`
  passed_on : Exception
  provider_failure : ProviderError → Exception
  -- an `AppError` of a code
  app_error : String → ℕ → Exception
  other : ℕ → Exception

-- `_is_policy_error` of the code of an `AppError`
abbrev pub is_policy_code : String → Bool
is_policy_code code = str_eq code "POLICY_DENIED" || str_eq code "PERMISSION_DENIED"

unfoldable pub classify_failure : (ℕ → Link) → ProviderCallContext → ℤ → ℤ → ℕ → ProviderError
classify_failure links context attempts max_attempts exc =
    let chain = exception_chain links exc in
    provider_error (failure_code (operation_profile context.operation) links chain) context
      (given (retry_along links chain)) attempts max_attempts

-- `classify_provider_exception`, which raises anew what it does not classify
unfoldable pub classify_provider_exception :
    (ℕ → Link) → ProviderCallContext → ℤ → ℤ → Exception → Option ProviderError
classify_provider_exception links context attempts max_attempts passed_on = none
classify_provider_exception links context attempts max_attempts (provider_failure e) =
    some (with_attempts e attempts max_attempts)
classify_provider_exception links context attempts max_attempts (app_error code exc) = some (
    if is_policy_code code
    then provider_error policy_denied context none attempts max_attempts
    else classify_failure links context attempts max_attempts exc)
classify_provider_exception links context attempts max_attempts (other exc) =
    some (classify_failure links context attempts max_attempts exc)
