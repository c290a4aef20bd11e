-- ===== src/Events/Contracts.antt =====
-- backend/events/generated/run_event_v1.py: the types of run events. What a run event carries
-- (`data`) is modelled for the events that the run repository writes; any other is opaque text.
use super_mew.Prelude.{ℕ, ℤ, String, Option}
use super_mew.Errors.{ErrorContract}
use super_mew.Runs.State.{RunStatus, MultitaskStrategy}

-- `RunEventType`
pub data RunEventType : Type 0 where
  run_created run_started run_waiting_input run_completed run_failed run_cancelled : RunEventType
  planner_started planner_completed : RunEventType
  tool_started tool_progress tool_completed tool_failed tool_denied : RunEventType
  retrieval_started retrieval_candidates retrieval_rerank_completed : RunEventType
  retrieval_completed message_delta message_completed : RunEventType
  hitl_required hitl_resumed usage_updated artifact_created warning_created : RunEventType

-- the statuses of a message that the run repository writes
pub data MessageStatus : Type 0 where
  streaming waiting queued completed incomplete cancelled failed : MessageStatus

-- the `data` dictionaries of the events
pub data EventData : Type 0 where
  created : RunStatus → ℕ → ℕ → MultitaskStrategy → EventData
  started : RunStatus → String → ℕ → EventData
  status_only : RunStatus → EventData
  cancel_requested : EventData
  usage : ℕ → ℕ → ℤ → EventData
  message : Option ℕ → String → MessageStatus → Option String → EventData
  terminal : RunStatus → Option String → Option ErrorContract → Option ℕ → EventData
  other : String → EventData
