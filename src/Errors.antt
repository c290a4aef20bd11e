-- ===== src/Errors.antt =====
-- The error values of the run subsystem (backend/core/errors.py), and what a transaction that
-- may raise returns.
use super_mew.Prelude.{ℕ, String, Option, Bool}

-- `ErrorCode`: the members that the modelled operations raise
pub data ErrorCode : Type 0 where
  invalid_request authentication_required not_found : ErrorCode
  run_active run_not_found run_state_conflict : ErrorCode
  idempotency_conflict thread_version_conflict conflict : ErrorCode

-- What an operation raises: an `AppError`, by its code; a `ValueError`; the `IntegrityError` of
-- the database; the `AttributeError` of a row that is not there, or the `NoResultFound` of `one()`.
pub data Error : Type 0 where
  app : ErrorCode → Error
  value_error integrity_error attribute_error no_result_found : Error

pub data Result {ℓ} (A : Type ℓ) : Type ℓ where
  ok : A → Result A
  err : Error → Result A

-- `PublicError.contract()`, which is also what the column `error_detail_redacted` holds as
-- JSON. `retry_after` is in microseconds.
pub record ErrorContract : Type 0 where
  pub code : String
  pub message : String
  pub retryable : Bool
  pub category : Option String
  pub stage : Option String
  pub provider : Option String
  pub retry_after : Option ℕ
