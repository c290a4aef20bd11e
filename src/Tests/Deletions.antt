-- ===== src/Tests/Deletions.antt =====
-- alice deletes the thread of a run that a worker answers.
use super_mew.Prelude.{none, some, List, [], ◌∷◌, ◌≡◌, ◌⊎◌, refl}
use super_mew.Runs.State.{succeeded}
use super_mew.Db.Rows.{Run}
use super_mew.Db.Session.{query_run}
use super_mew.Threads.Records.{query_user, query_owned}
use super_mew.Threads.Lists.{delete_thread, remove_thread, delete_row, delete_for}
use super_mew.Runs.Evolution.Descent.{Descends}
use super_mew.Runs.System.{Op}
use super_mew.Runs.System.Deletions.{Change, runs, deletes, change, change_all}
use super_mew.Runs.System.Removals.{
  Deleted, Announced, done, change_all-Descends, change_all-Announced,
}
use super_mew.Tests.Opened.{opened}
use super_mew.Tests.Data.{fresh_db, config, keys, ask, answer, stamp, stamps}
use super_mew.Tests.Leases.{asked_db, claimed, running_run, claimed_row, claimed-Keyed}

-- the first deletion finds the run live, and is refused
abbrev history : List Change
history =
    deletes "alice" "inbox"
    ∷ runs (Op.finalize 4 stamps "run_a" succeeded answer (some 3) none)
    ∷ deletes "alice" "inbox"
    ∷ []

refused : query_run "run_a" (change config (deletes "alice" "inbox") claimed) ≡ some running_run
unfolding opened asked_db claimed change delete_thread delete_for delete_row remove_thread
    query_user query_owned
refused = refl

taken : query_run "run_a" (change_all config history claimed) ≡ none
unfolding opened asked_db claimed change change_all delete_thread delete_for delete_row
    remove_thread query_user query_owned
taken = refl

change_all-Descends_example :
    ((r' : Run) × (query_run "run_a" (change_all config history claimed) ≡ some r')
      × Descends running_run r')
    ⊎ Deleted config history claimed "run_a" running_run
change_all-Descends_example =
    change_all-Descends config history claimed "run_a" running_run claimed-Keyed claimed_row

abbrev whole : List Change
whole =
    runs (Op.reserve (keys "run_a" 10) 1 (ask "hello" "k1"))
    ∷ runs (Op.claim 3 (stamp "evt_c" 30) "run_a" "w1" none)
    ∷ history

change_all-Announced_example : Announced (change_all config whole fresh_db)
change_all-Announced_example = change_all-Announced config whole fresh_db tt done
