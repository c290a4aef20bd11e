-- ===== src/Runs/Repository/Validate.antt =====
-- The checks of the arguments of `reserve`: `validate_thread_id` of backend/threads/contracts.py,
-- `_validate_idempotency_key`, `_security_identifier` and `_approved_tools`.
use super_mew.Prelude.{
  ℕ, String, Option, none, some, Bool, true, not, ◌&&◌, ◌||◌, List, [], ◌∷◌, ltb, leb, ◌==◌, length,
  if◌then◌else◌, is_lower, is_upper, is_digit, is_empty, strip, len, every, starts,
}

-- `[a-z0-9_.-]`
unfoldable pub is_tool_char : ℕ → Bool
is_tool_char c = is_lower c || is_digit c || c == b'_' || c == b'.' || c == b'-'

-- `[a-z0-9_.:-]`
unfoldable pub is_label_char : ℕ → Bool
is_label_char c = is_tool_char c || c == b':'

-- `[A-Za-z0-9_.:-]`
unfoldable pub is_id_char : ℕ → Bool
is_id_char c = is_label_char c || is_upper c

-- `validate_thread_id`: `[A-Za-z0-9][A-Za-z0-9_.:-]{0,119}`
unfoldable pub validate_thread_id : String → Option String
validate_thread_id value =
    if starts (λ c. is_lower c || is_upper c || is_digit c) value
      && every is_id_char value
      && leb (len value) 120
    then some value
    else none

-- `_validate_idempotency_key`
unfoldable pub validate_idempotency_key : String → Option String
validate_idempotency_key value =
    let key = strip value in if is_empty key || ltb 128 (len key) then none else some key

-- `_security_identifier`: `[a-z][a-z0-9_.:-]*`
unfoldable pub security_identifier : String → ℕ → Option String
security_identifier value maximum =
    let candidate = strip value in
    if is_empty candidate
      || ltb maximum (len candidate)
      || not (starts is_lower candidate && every is_label_char candidate)
    then none
    else some candidate

-- `[a-z][a-z0-9_.-]{0,127}`
unfoldable pub is_tool_name : String → Bool
is_tool_name name = starts is_lower name && every is_tool_char name && leb (len name) 128

unfoldable pub all_tool_names : List String → Bool
all_tool_names [] = true
all_tool_names (n ∷ ns) = is_tool_name n && all_tool_names ns

-- `_approved_tools`. A frozenset is given by its elements in order, each once.
unfoldable pub approved_tools : List String → Option (List String)
approved_tools values =
    if ltb 32 (length values) || not (all_tool_names values) then none else some values
