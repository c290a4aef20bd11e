-- ===== src/Runs/Repository/Reserve/Rows.antt =====
-- The rows that `RunRepository.reserve` writes.
use Prim.Native.String.{◌++◌ as join}
use super_mew.Prelude.{
  ℕ, ◌+◌, String, Option, none, some, Bool, false, not, ◌&&◌, str_eq, truthy?, ◌==◌, pos,
  if◌then◌else◌,
}
use super_mew.Runs.State.{RunStatus, pending}
use super_mew.Events.Contracts.{MessageStatus}
use super_mew.Db.Rows.{User, Thread, Metadata, Run, Message, human, ai}
use super_mew.Runs.Repository.Record.{record_of, micros}
use super_mew.Runs.Repository.Reserve.Inputs.{RunReservation, Checked, Fresh}

abbrev pub title_of : Metadata → Bool
title_of m = truthy? m.title

abbrev pub untitled : Thread → Option String → Bool
untitled thread title = truthy? title && not (title_of thread.metadata_json)

abbrev pub with_title : Thread → Option String → ℕ → Thread
with_title thread title now = record thread {
  metadata_json = record { title = title; persistent_note = thread.metadata_json.persistent_note };
  updated_at = now;
}

abbrev pub names_user : String → User → Bool
names_user username u = str_eq u.username username

abbrev pub names_thread : ℕ → String → Thread → Bool
names_thread user_id thread_id t = t.user_id == user_id && str_eq t.thread_id thread_id

abbrev pub new_thread : ℕ → ℕ → String → Option String → ℕ → Thread
new_thread key user_id thread_id title now = record {
  id = key;
  user_id = user_id;
  thread_id = thread_id;
  version = 0;
  message_count = 0;
  last_sequence = 0;
  metadata_json = record { title = if truthy? title then title else none; persistent_note = none };
  updated_at = now;
}

abbrev pub new_run : Fresh → ℕ → Checked → ℕ → Thread → RunStatus → Option String → Run
new_run fresh now checked user_id thread status supersedes = record {
  request = record {
    id = fresh.run_id;
    thread_ref_id = thread.id;
    user_id = user_id;
    tenant_id = checked.tenant_id;
    channel = checked.channel;
    approved_tools_json = checked.approved_tools;
    idempotency_key = checked.key;
    request_hash = checked.hash;
    model_name = checked.request.model_name;
    model_catalog_hash = checked.snapshot.catalog_hash;
    model_snapshot_json = checked.snapshot.json;
    on_disconnect = checked.on_disconnect;
    multitask_strategy = checked.strategy;
    supersedes_run_id = supersedes;
    deadline_at = now + micros checked.deadline;
    created_at = now;
  };
  user_message_id = none;
  assistant_message_id = none;
  status = status;
  fencing_token = 1;
  last_event_sequence = 0;
  owner_worker_id = none;
  lease_expires_at = none;
  started_at = none;
  skill = record {
    skill_name = none;
    skill_version = none;
    skill_content_hash = none;
    skill_activation_source = none;
  };
  outcome = record {
    finished_at = none;
    error_code = none;
    error_detail_redacted = none;
    input_tokens = 0;
    output_tokens = 0;
    cost = pos 0;
  };
}

abbrev pub user_message : Fresh → ℕ → Checked → Thread → Message
user_message fresh now checked thread = record {
  id = fresh.user_message_key;
  thread_ref_id = thread.id;
  run_id = some fresh.run_id;
  client_message_id = some (join fresh.run_id ":user");
  sequence = thread.last_sequence + 1;
  message_type = human;
  content = checked.request.message;
  status = MessageStatus.completed;
  timestamp = now;
  updated_at = now;
  rag_trace = none;
}

abbrev pub first_status : RunStatus → MessageStatus
first_status pending = MessageStatus.streaming
first_status _ = MessageStatus.queued

abbrev pub assistant_message : Fresh → ℕ → Thread → RunStatus → Message
assistant_message fresh now thread status = record {
  id = fresh.assistant_message_key;
  thread_ref_id = thread.id;
  run_id = some fresh.run_id;
  client_message_id = some (join fresh.run_id ":assistant");
  sequence = thread.last_sequence + 2;
  message_type = ai;
  content = "";
  status = first_status status;
  timestamp = now;
  updated_at = now;
  rag_trace = none;
}

abbrev pub extended : Thread → ℕ → Thread
extended thread now = record thread {
  last_sequence = thread.last_sequence + 2;
  message_count = thread.message_count + 2;
  version = thread.version + 2;
  updated_at = now;
}

-- what is returned for a key that has its run
abbrev pub repeated : Run → String → Thread → RunReservation
repeated run thread_id thread = record {
  run = record_of run thread_id;
  created = false;
  thread_version = thread.version;
  created_event = none;
}
