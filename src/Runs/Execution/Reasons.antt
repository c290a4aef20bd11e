-- ===== src/Runs/Execution/Reasons.antt =====
-- Which reason a cancellation token of backend/runs/cancellation.py keeps.
use super_mew.Prelude.{ℕ, ◌≤◌, max, some, not, ◌||◌, List, [], ◌∷◌, ◌==◌, ◌≡◌, arith}
use super_mew.Runs.Execution.{
  Reason, shutdown, user, ownership_lost, priority, CancellationToken, request,
}

-- the requests that reach a token, in their order
unfoldable pub request_all : List Reason → CancellationToken → CancellationToken
request_all [] t = t
request_all (r ∷ rs) t = request_all rs (request r t)

abbrev pub highest : List Reason → ℕ
highest [] = 0
highest (r ∷ rs) = max (priority (some r)) (highest rs)

request_lem :
    (r : Reason) (t : CancellationToken)
    → priority (request r t).reason ≡ max (priority t.reason) (priority (some r))
unfolding request
request_lem r t = ground arith

positive : (r : Reason) → 1 ≤ priority (some r)
positive shutdown = omega arith
positive user = omega arith
positive ownership_lost = omega arith

-- Whatever cancellations are requested of a token, in whatever order: it keeps a reason of the
-- highest priority among those requested and the one that it had, and it is cancelled exactly
-- if it was so before or some cancellation was requested.
pub request_all-highest :
    (rs : List Reason) (t : CancellationToken)
    → (priority (request_all rs t).reason ≡ max (priority t.reason) (highest rs))
      × ((request_all rs t).event ≡ (t.event || not (highest rs == 0)))
unfolding request_all request
request_all-highest [] t = (ground arith, ground arith)
request_all-highest (r ∷ rs) t =
    let (x, y) = request_all-highest rs (request r t) in
    let here = request_lem r t in
    let some_priority = positive r in (omega (arith, x, here), ground arith)
