-- ===== src/Runs/State.antt =====
-- backend/runs/state.py: the statuses of a run and the transitions between them.
pub mod Laws
use super_mew.Prelude.{ℕ, Bool, false, List, [], ◌∷◌, ◌||◌, ◌==◌}

-- `RunStatus`
pub data RunStatus : Type 0 where
  queued pending running waiting_input cancelling succeeded failed cancelled : RunStatus

-- `MultitaskStrategy`
pub data MultitaskStrategy : Type 0 where
  reject enqueue cancel_previous : MultitaskStrategy

abbrev rank : RunStatus → ℕ
rank queued = 0
rank pending = 1
rank running = 2
rank waiting_input = 3
rank cancelling = 4
rank succeeded = 5
rank failed = 6
rank cancelled = 7

abbrev pub same_status : RunStatus → RunStatus → Bool
same_status a b = rank a == rank b

-- `target in statuses`
abbrev pub is_in : RunStatus → List RunStatus → Bool
is_in s [] = false
is_in s (t ∷ ts) = same_status s t || is_in s ts

-- `ACTIVE_RUN_STATUSES`
abbrev pub active_run_statuses : List RunStatus
active_run_statuses = pending ∷ running ∷ waiting_input ∷ cancelling ∷ []

-- `TERMINAL_RUN_STATUSES`
abbrev pub terminal_run_statuses : List RunStatus
terminal_run_statuses = succeeded ∷ failed ∷ cancelled ∷ []

-- `ALLOWED_TRANSITIONS`
abbrev pub allowed_transitions : RunStatus → List RunStatus
allowed_transitions queued = pending ∷ cancelled ∷ []
allowed_transitions pending = running ∷ cancelling ∷ cancelled ∷ failed ∷ []
allowed_transitions running = waiting_input ∷ cancelling ∷ succeeded ∷ failed ∷ cancelled ∷ []
allowed_transitions waiting_input = pending ∷ running ∷ cancelling ∷ cancelled ∷ failed ∷ []
allowed_transitions cancelling = cancelled ∷ failed ∷ []
allowed_transitions succeeded = []
allowed_transitions failed = []
allowed_transitions cancelled = []

unfoldable pub can_transition : RunStatus → RunStatus → Bool
can_transition current target =
    same_status current target || is_in target (allowed_transitions current)

abbrev pub is_active : RunStatus → Bool
is_active s = is_in s active_run_statuses

abbrev pub is_terminal : RunStatus → Bool
is_terminal s = is_in s terminal_run_statuses
