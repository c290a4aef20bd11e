-- ===== src/Tests/Histories.antt =====
-- Histories of the run subsystem.
use super_mew.Prelude.{arith, none, List, [], ◌∷◌, ◌≡◌, refl, map}
use super_mew.Runs.State.{RunStatus, queued, cancelled, succeeded, pending}
use super_mew.Db.Rows.{Run}
use super_mew.Db.Session.{Db}
use super_mew.Runs.Evolution.Invariants.{IsJournaled, sequences}
use super_mew.Runs.System.{perform_all}
use super_mew.Runs.System.History.{perform_all-IsJournaled}
use super_mew.Runs.System.Single.{IsSingle, perform_all-IsSingle}
use super_mew.Tests.Opened.{opened}
use super_mew.Runs.System.{Op}
use super_mew.Errors.{err, integrity_error}
use super_mew.Runs.Repository.Finalize.{finalize}
use super_mew.Tests.Data.{fresh_db, config, one_answer, keys, ask, stamps, answer}

-- the whole library of transactions, opened
abbrev statuses : Db → List RunStatus
statuses db = map (λ (r : Run). r.status) db.runs

one_answer-statuses : statuses (perform_all config one_answer fresh_db) ≡ succeeded ∷ pending ∷ []
unfolding opened
one_answer-statuses = refl

-- The witness's hypotheses: there is no run yet, and no event.
pub fresh-IsJournaled : IsJournaled fresh_db
unfolding opened
fresh-IsJournaled = record { numbers = λ k. refl }

perform_all-IsJournaled_example : IsJournaled (perform_all config one_answer fresh_db)
perform_all-IsJournaled_example =
    perform_all-IsJournaled config one_answer fresh_db tt fresh-IsJournaled

-- the numbers of the four events of the answered run
one_answer-numbers :
    sequences "run_a" (perform_all config one_answer fresh_db).events ≡ 1 ∷ 2 ∷ 3 ∷ 4 ∷ 5 ∷ []
unfolding opened
one_answer-numbers = refl

pub fresh-IsSingle : IsSingle fresh_db
unfolding opened
fresh-IsSingle = record { one = λ thread. omega arith }

perform_all-IsSingle_example : IsSingle (perform_all config one_answer fresh_db)
perform_all-IsSingle_example = perform_all-IsSingle config one_answer fresh_db tt fresh-IsSingle

-- alice asks three times, and cancels the second request while it is queued behind the first: the
-- third is promoted beside the first, which is active
abbrev three_asked : List Op
three_asked =
    Op.reserve (keys "run_a" 10) 1 (ask "hello" "k1")
    ∷ Op.reserve (keys "run_b" 20) 2 (ask "again" "k2")
    ∷ Op.reserve (keys "run_c" 30) 3 (ask "more" "k3")
    ∷ []

three_asked-statuses :
    statuses (perform_all config three_asked fresh_db) ≡ pending ∷ queued ∷ queued ∷ []
unfolding opened
three_asked-statuses = refl

cancel_queued-integrity_error :
    finalize 4 stamps "run_b" cancelled answer none none (perform_all config three_asked fresh_db)
    ≡ err integrity_error
unfolding opened
cancel_queued-integrity_error = refl
