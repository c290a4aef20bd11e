-- ===== src/RateLimits/Policy.antt =====
-- backend/rate_limits/policy.py: the policies, the rules that give them to routes, and the matcher. A
-- path pattern is the list of its pieces. `upper` is `str.upper`.
use super_mew.Prelude.{
  ℕ, String, code, Option, none, some, Bool, false, not, ◌&&◌, ◌||◌, List, [], ◌∷◌, ◌==◌, str_eq,
  is_empty, exists?, strip, if◌then◌else◌,
}
use super_mew.RateLimits.Contracts.{RateLimitPolicy}

abbrev policy_of : String → ℕ → ℕ → RateLimitPolicy
policy_of id limit window_seconds = record {
  id = id;
  limit = limit;
  window_seconds = window_seconds;
}

abbrev pub auth_login_policy : RateLimitPolicy
auth_login_policy = policy_of "auth-login" 10 60

abbrev pub auth_register_policy : RateLimitPolicy
auth_register_policy = policy_of "auth-register" 5 3600

abbrev pub auth_refresh_policy : RateLimitPolicy
auth_refresh_policy = policy_of "auth-refresh" 120 60

abbrev pub auth_logout_policy : RateLimitPolicy
auth_logout_policy = policy_of "auth-logout" 120 60

abbrev pub thread_run_policy : RateLimitPolicy
thread_run_policy = policy_of "thread-run" 30 60

abbrev pub hitl_resume_policy : RateLimitPolicy
hitl_resume_policy = policy_of "hitl-resume" 30 60

abbrev pub document_upload_policy : RateLimitPolicy
document_upload_policy = policy_of "document-upload" 10 3600

abbrev pub general_api_policy : RateLimitPolicy
general_api_policy = policy_of "api-general" 120 60

-- a piece of a path pattern: a text, a text that may be left out, and `[^/]+`
pub data Piece : Type 0 where
  text : String → Piece
  optional : String → Piece
  segment : Piece

-- what follows a prefix
unfoldable pub after_prefix : String → String → Option String
after_prefix String.[] s = some s
after_prefix (String.◌∷◌ c p) String.[] = none
after_prefix (String.◌∷◌ c p) (String.◌∷◌ d s) =
    let rest = after_prefix p s in if code c == code d then rest else none

abbrev pub followed : (String → Bool) → Option String → Bool
followed k none = false
followed k (some s) = k s

-- `[^/]+` and then a continuation, with every way to end the segment
unfoldable pub segment_then : (String → Bool) → String → Bool
segment_then k String.[] = false
segment_then k (String.◌∷◌ c s) = not (code c == b'/') && (k s || segment_then k s)

-- `re.Pattern.fullmatch`
unfoldable pub full_match : List Piece → String → Bool
full_match [] s = is_empty s
full_match (text p ∷ ps) s = followed (full_match ps) (after_prefix p s)
full_match (optional p ∷ ps) s = followed (full_match ps) (after_prefix p s) || full_match ps s
full_match (segment ∷ ps) s = segment_then (full_match ps) s

-- `RoutePolicyRule`
pub record RoutePolicyRule : Type 0 where
  pub methods : List String
  pub path_pattern : List Piece
  pub policy : RateLimitPolicy

-- `matches`
abbrev pub rule_matches : RoutePolicyRule → String → String → Bool
rule_matches rule method path =
    exists? (str_eq method) rule.methods && full_match rule.path_pattern path

abbrev post_rule : List Piece → RateLimitPolicy → RoutePolicyRule
post_rule path_pattern policy = record {
  methods = "POST" ∷ [];
  path_pattern = path_pattern;
  policy = policy;
}

-- `DEFAULT_ROUTE_POLICY_RULES`
abbrev pub default_rules : List RoutePolicyRule
default_rules =
    post_rule (text "/auth/login" ∷ optional "/" ∷ []) auth_login_policy
    ∷ post_rule (text "/auth/register" ∷ optional "/" ∷ []) auth_register_policy
    ∷ post_rule (text "/auth/refresh" ∷ optional "/" ∷ []) auth_refresh_policy
    ∷ post_rule (text "/auth/logout" ∷ optional "-all" ∷ optional "/" ∷ []) auth_logout_policy
    ∷ post_rule
        (text "/v1/threads/" ∷ segment ∷ text "/runs" ∷ optional "/stream" ∷ optional "/" ∷ [])
        thread_run_policy
    ∷ post_rule (text "/v1/runs/" ∷ segment ∷ text "/resume" ∷ optional "/" ∷ []) hitl_resume_policy
    ∷ post_rule (text "/documents/upload/async" ∷ optional "/" ∷ []) document_upload_policy
    ∷ []

-- `path.split("?", 1)[0]`
unfoldable pub before_query : String → String
before_query String.[] = ""
before_query (String.◌∷◌ c s) =
    let rest = before_query s in if code c == b'?' then "" else String.◌∷◌ c rest

-- the loop of `match`
unfoldable pub first_rule :
    List RoutePolicyRule → RateLimitPolicy → String → String → RateLimitPolicy
first_rule [] fallback method path = fallback
first_rule (rule ∷ rules) fallback method path =
    let rest = first_rule rules fallback method path in
    if rule_matches rule method path then rule.policy else rest

-- `RoutePolicyMatcher.match`
unfoldable pub match_route :
    (String → String) → List RoutePolicyRule → RateLimitPolicy → String → String → RateLimitPolicy
match_route upper rules fallback method path =
    first_rule rules fallback (upper (strip method)) (before_query path)
