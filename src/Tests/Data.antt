-- ===== src/Tests/Data.antt =====
-- A user with a thread, and requests for it.
use super_mew.Prelude.{ℕ, ◌+◌, pos, String, none, some, false, List, [], ◌∷◌}
use super_mew.Runs.State.{succeeded, enqueue}
use super_mew.Db.Rows.{User, Thread}
use super_mew.Db.Session.{Db}
use super_mew.Events.Journal.{Stamp}
use super_mew.Runs.Repository.Finalize.{Ending, Stamps}
use super_mew.Runs.Repository.Reserve.{ModelSnapshot, Request, Fresh}
use super_mew.Runs.System.{Config, Op}

abbrev pub alice : User
alice = record { id = 1; username = "alice"; role = "user" }

abbrev pub inbox : Thread
inbox = record {
  id = 7;
  user_id = 1;
  thread_id = "inbox";
  version = 0;
  message_count = 0;
  last_sequence = 0;
  metadata_json = record { title = some "Inbox"; persistent_note = none };
  updated_at = 0;
}

abbrev pub fresh_db : Db
fresh_db = record {
  users = alice ∷ [];
  threads = inbox ∷ [];
  runs = [];
  messages = [];
  events = [];
  outbox = [];
}

abbrev pub snapshot : ModelSnapshot
snapshot = record { catalog_hash = "0"; json = "{}" }

abbrev pub config : Config
config = record {
  digest = λ input. input.message;
  empty = snapshot;
  settings = record {
    lease_seconds = 30;
    default_deadline_seconds = 600;
    multitask_strategy = enqueue;
    disconnect_policy = "continue";
  };
}

abbrev pub stamp : String → ℕ → Stamp
stamp id n = record { event_id = id; outbox_id = n; timestamp = n }

abbrev pub stamps : Stamps
stamps = record {
  usage = stamp "evt_u" 90;
  message = stamp "evt_m" 91;
  terminal = stamp "evt_t" 92;
}

abbrev pub ask : String → String → Request
ask message key = record {
  username = "alice";
  thread_id = "inbox";
  message = message;
  idempotency_key = key;
  request_hash = none;
  expected_thread_version = none;
  model_name = "m";
  model_snapshot = none;
  on_disconnect = none;
  multitask_strategy = none;
  title = none;
  tenant_id = "default";
  channel = "run";
  approved_tools = [];
  allow_implicit_thread = false;
}

abbrev pub keys : String → ℕ → Fresh
keys id n = record {
  thread_key = 8;
  run_id = id;
  user_message_key = n;
  assistant_message_key = n + 1;
  stamp = stamp id n;
}

abbrev pub answer : Ending
answer = record {
  content = "done";
  error_code = none;
  error_detail_redacted = none;
  input_tokens = pos 3;
  output_tokens = pos 5;
  cost = pos 0;
  rag_trace = none;
  partial = false;
}

-- alice asks twice, a worker takes the first run and finishes it
abbrev pub one_answer : List Op
one_answer =
    Op.reserve (keys "run_a" 10) 1 (ask "hello" "k1")
    ∷ Op.reserve (keys "run_b" 20) 2 (ask "again" "k2")
    ∷ Op.claim 3 (stamp "evt_c" 30) "run_a" "w1" none
    ∷ Op.finalize 4 stamps "run_a" succeeded answer (some 3) none
    ∷ []
