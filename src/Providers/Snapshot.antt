-- ===== src/Providers/Snapshot.antt =====
-- `to_snapshot` and `from_snapshot` of backend/providers/core.py: the fields of an error that a
-- checkpoint keeps, and the error made of them.
use super_mew.Prelude.{
  zero, suc, String, Option, none, some, ℤ, pos, negsuc, is_empty, if◌then◌else◌,
}
use super_mew.Providers.Codes.{code_value, parse_code, operation_value, parse_operation}
use super_mew.Providers.Error.{call_context, ProviderError, Seconds, provider_error, given}

-- the payload: `None` and a missing key are read alike
pub record Payload : Type 0 where
  pub code : String
  pub provider : Option String
  pub operation : String
  pub retry_after_seconds : Option Seconds
  pub attempts : Option ℤ
  pub max_attempts : Option ℤ

-- `to_snapshot`
unfoldable pub to_snapshot : ProviderError → Payload
to_snapshot e = record {
  code = code_value e.code;
  provider = some e.provider;
  operation = operation_value e.operation;
  retry_after_seconds = given e.retry_after_seconds;
  attempts = some (pos e.attempts);
  max_attempts = some (pos e.max_attempts);
}

-- `payload.get("provider") or "unknown-provider"`
abbrev pub provider_or : Option String → String
provider_or none = "unknown-provider"
provider_or (some s) = if is_empty s then "unknown-provider" else s

-- `payload.get("attempts") or 1`
abbrev pub number_or : Option ℤ → ℤ
number_or none = pos 1
number_or (some (pos zero)) = pos 1
number_or (some (pos (suc n))) = pos (suc n)
number_or (some (negsuc n)) = negsuc n

-- `from_code`; no error is made of a code or an operation that is unknown
unfoldable pub from_code : String → String → String → Option Seconds → ℤ → ℤ → Option ProviderError
from_code code provider operation retry_after attempts max_attempts =
    elim (parse_operation operation) [
      | none ↦ none
      | some o ↦ elim (parse_code code) [
        | none ↦ none
        | some c ↦
            some (provider_error c (call_context provider o) retry_after attempts max_attempts)
      ]
    ]

-- `from_snapshot`
unfoldable pub from_snapshot : Payload → Option ProviderError
from_snapshot p =
    from_code p.code (provider_or p.provider) p.operation p.retry_after_seconds
      (number_or p.attempts) (number_or p.max_attempts)
