-- ===== src/Tests/Opened.antt =====
-- The names that a test by evaluation opens.
use super_mew.Prelude.{
  find?, select, count, replace, is_space, lstrip, rstrip, strip, len, every, starts,
}
use super_mew.Runs.State.{can_transition}
use super_mew.Db.Session.{
  ◌>>=◌, clashes, clashes_other, save_run, insert_run, save_thread, thread_clashes, insert_thread,
  save_message, message_clashes, insert_message, event_clashes, insert_event, insert_outbox,
  query_run, query_thread, query_message,
}
use super_mew.Events.Journal.{
  append_event_in_session, load_run, load_thread, append, insert_by_sequence, order_by_sequence,
  page_after, assert_access, read_after,
}
use super_mew.Runs.Repository.Validate.{
  is_tool_char, is_label_char, is_id_char, validate_thread_id, validate_idempotency_key,
  security_identifier, is_tool_name, all_tool_names, approved_tools,
}
use super_mew.Runs.Repository.Record.{record_of, assert_fencing, transition}
use super_mew.Runs.Repository.Claim.{return_record, take_over, claim_run, claim}
use super_mew.Runs.Repository.Hold.{
  heartbeat, set_message_status, set_waiting_input, load_owned, cancel_run, mark_cancelling,
}
use super_mew.Runs.Repository.Finalize.{
  message_status, oldest, promote, promote_next_queued, close_message, append_usage, end_run,
  finalize_run, finalize,
}
use super_mew.Runs.Repository.Reserve.{
  get_or_create, query_existing, query_active, initial, create_run, reserve_run,
  reserve_in_transaction, load_reservation, recovered, catch_integrity, check, reserve,
}
use super_mew.Runs.Repository.Skill.{pin_run, pin_skill_activation}
use super_mew.Runs.System.{perform, perform_all}

unfoldable pub opened : Unit {0}
unfolding find? select count replace can_transition ◌>>=◌ clashes clashes_other save_run insert_run
    save_thread thread_clashes insert_thread save_message message_clashes insert_message
    event_clashes insert_event insert_outbox query_run query_thread query_message
    append_event_in_session load_run load_thread append insert_by_sequence order_by_sequence
    page_after assert_access read_after is_space lstrip rstrip strip len is_tool_char is_label_char
    is_id_char every starts validate_thread_id validate_idempotency_key security_identifier
    is_tool_name all_tool_names approved_tools record_of assert_fencing transition return_record
    take_over claim_run claim heartbeat set_message_status set_waiting_input load_owned cancel_run
    mark_cancelling message_status oldest promote promote_next_queued close_message append_usage
    end_run finalize_run finalize get_or_create query_existing query_active initial create_run
    reserve_run reserve_in_transaction load_reservation recovered catch_integrity check reserve
    pin_run pin_skill_activation perform perform_all
opened = tt
