-- ===== src/Runs/Repository/Skill.antt =====
-- `RunRepository.pin_skill_activation`: the worker that holds a run fixes its skill, once.
use super_mew.Prelude.{ℕ, String, some, Bool, ◌&&◌, ◌||◌, is_text, truthy?, if◌then◌else◌}
use super_mew.Errors.{app, run_state_conflict}
use super_mew.Runs.State.{running, same_status}
use super_mew.Db.Rows.{Run, SkillPin}
use super_mew.Db.Session.{Tx, ◌>>=◌, ◌>>◌, raise, guard, save_run}
use super_mew.Events.Journal.{load_run}
use super_mew.Runs.Repository.Record.{RunRecord, assert_fencing}
use super_mew.Runs.Repository.Claim.{return_record}

-- the run is running, and this worker's
abbrev pub holds : Run → String → Bool
holds run worker_id = same_status run.status running && is_text run.owner_worker_id worker_id

-- `any(existing)`
abbrev pub is_pinned : SkillPin → Bool
is_pinned pin =
    truthy? pin.skill_name
    || truthy? pin.skill_version
    || truthy? pin.skill_content_hash
    || truthy? pin.skill_activation_source

abbrev pub pin_of : String → String → String → String → SkillPin
pin_of name version content_hash source = record {
  skill_name = some name;
  skill_version = some version;
  skill_content_hash = some content_hash;
  skill_activation_source = some source;
}

-- `existing == requested`
abbrev pub same_pin : SkillPin → String → String → String → String → Bool
same_pin pin name version content_hash source =
    is_text pin.skill_name name
    && is_text pin.skill_version version
    && is_text pin.skill_content_hash content_hash
    && is_text pin.skill_activation_source source

-- the part of `pin_skill_activation` after its guards
unfoldable pub pin_run : Run → String → String → String → String → Tx RunRecord
pin_run run name version content_hash source =
    if is_pinned run.skill
    then if same_pin run.skill name version content_hash source
      then return_record run
      else raise (app run_state_conflict)
    else do
      let pinned = record run { skill = pin_of name version content_hash source }
      save_run pinned
      return_record pinned

-- `RunRepository.pin_skill_activation`
unfoldable pub pin_skill_activation :
    String → String → ℕ → String → String → String → String → Tx RunRecord
pin_skill_activation run_id worker_id fencing_token name version content_hash source = do
  run ← load_run run_id
  assert_fencing run (some fencing_token)
  guard (holds run worker_id) (app run_state_conflict)
  pin_run run name version content_hash source
