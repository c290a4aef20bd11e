-- ===== src/RateLimits/Routes.antt =====
-- The routes that create a run, under the rules of backend/rate_limits/policy.py.
use super_mew.Prelude.{
  String, code, Bool, true, false, not, ◌&&◌, List, [], ◌∷◌, ◌==◌, is_empty, strip, ◌≡◌, refl, ap,
  ◌∙◌, arith,
}
use super_mew.RateLimits.Policy.{
  Piece, text, optional, after_prefix, segment_then, full_match, default_rules, before_query,
  first_rule, match_route, thread_run_policy, general_api_policy,
}

-- `s + t`
unfoldable pub concat : String → String → String
concat String.[] t = t
concat (String.◌∷◌ c s) t = String.◌∷◌ c (concat s t)

-- text of a path that is one segment and has no query
unfoldable pub plain : String → Bool
plain String.[] = true
plain (String.◌∷◌ c s) = not (code c == b'/') && not (code c == b'?') && plain s

segment_then-concat :
    (k : String → Bool) (s t : String)
    → plain s ≡ true
    → is_empty s ≡ false
    → k t ≡ true
    → segment_then k (concat s t) ≡ true
unfolding segment_then concat plain
segment_then-concat k String.[] t p e h = cc
segment_then-concat k (String.◌∷◌ c String.[]) t p e h = ground arith
segment_then-concat k (String.◌∷◌ c (String.◌∷◌ d s)) t p e h =
    let rest = segment_then-concat k (String.◌∷◌ d s) t (ground arith) refl h in ground arith

before_query-concat :
    (s t : String) → plain s ≡ true → before_query (concat s t) ≡ concat s (before_query t)
unfolding before_query concat plain
before_query-concat String.[] t p = refl
before_query-concat (String.◌∷◌ c s) t p =
    let rest = before_query-concat s t (ground arith) in ground arith

-- the ends of the paths that create a run
abbrev pub run_suffix : Bool → Bool → String
run_suffix false false = "/runs"
run_suffix false true = "/runs/"
run_suffix true false = "/runs/stream"
run_suffix true true = "/runs/stream/"

abbrev pub run_path : String → Bool → Bool → String → String
run_path thread_id stream slash tail =
    concat "/v1/threads/" (concat thread_id (concat (run_suffix stream slash) tail))

suffix_query :
    (stream slash : Bool) (tail : String)
    → before_query tail ≡ ""
    → before_query (concat (run_suffix stream slash) tail) ≡ run_suffix stream slash
unfolding before_query concat
suffix_query false false tail h = ap (concat "/runs") h
suffix_query false true tail h = ap (concat "/runs/") h
suffix_query true false tail h = ap (concat "/runs/stream") h
suffix_query true true tail h = ap (concat "/runs/stream/") h

abbrev run_tail : List Piece
run_tail = text "/runs" ∷ optional "/stream" ∷ optional "/" ∷ []

suffix_matches : (stream slash : Bool) → full_match run_tail (run_suffix stream slash) ≡ true
unfolding full_match after_prefix
suffix_matches false false = refl
suffix_matches false true = refl
suffix_matches true false = refl
suffix_matches true true = refl

run_rule :
    (s : String)
    → segment_then (full_match run_tail) s ≡ true
    → first_rule default_rules general_api_policy "POST" (concat "/v1/threads/" s)
      ≡ thread_run_policy
unfolding first_rule full_match after_prefix concat
run_rule s h = ground arith

path_query :
    (s : String) → before_query (concat "/v1/threads/" s) ≡ concat "/v1/threads/" (before_query s)
unfolding before_query concat
path_query s = refl

-- Whatever the thread id is, as long as it is one non-empty path segment without a query mark,
-- a request whose method is POST once stripped and in upper case, for one of the four paths
-- that create a run, with any query or none, is limited by the policy of thread runs.
pub match_route-thread_run :
    (upper : String → String) (method thread_id tail : String) (stream slash : Bool)
    → upper (strip method) ≡ "POST"
    → plain thread_id ≡ true
    → is_empty thread_id ≡ false
    → before_query tail ≡ ""
    → match_route upper default_rules general_api_policy method
        (run_path thread_id stream slash tail)
      ≡ thread_run_policy
unfolding match_route
match_route-thread_run upper method thread_id tail stream slash m p e q =
    let s = concat thread_id (run_suffix stream slash) in
    let path : before_query (run_path thread_id stream slash tail) ≡ concat "/v1/threads/" s =
      path_query (concat thread_id (concat (run_suffix stream slash) tail))
      ∙ ap (concat "/v1/threads/") (
          before_query-concat thread_id (concat (run_suffix stream slash) tail) p
          ∙ ap (concat thread_id) (suffix_query stream slash tail q)) in
    ap
      (λ x.
        first_rule default_rules general_api_policy x
          (before_query (run_path thread_id stream slash tail)))
      m
    ∙ ap (first_rule default_rules general_api_policy "POST") path
    ∙ run_rule s (
        segment_then-concat (full_match run_tail) thread_id (run_suffix stream slash) p e
          (suffix_matches stream slash))
