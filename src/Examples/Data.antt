-- ===== src/Examples/Data.antt =====
-- A rollout of two items, the first of which comes before the second, with a build run for each.
use agent_gtd.Prelude.{ℕ, false, Option, none, some, List, [], ◌∷◌, ◌++◌}
use agent_gtd.Graph.{Edge}
use agent_gtd.Text.{Text, text}
use agent_gtd.Rollout.Types.{
  RolloutStatus, RolloutItemStatus, ItemStatus, LocalRunStatus, DispatchMode,
}
use agent_gtd.Rollout.Db.{Db, Wave, RolloutItem, Item, Run, Project}
use agent_gtd.Settings.Types.{HostRow, Registry}

abbrev pub wave : Wave
wave = record {
  id = 7;
  project_id = 1;
  lead_user_id = 5;
  status = RolloutStatus.running;
  halt_reason = none;
  started_at = some 100;
  ended_at = none;
  updated_at = 100;
  dispatch_host_id = none;
  manager_phase = none;
  manager_current_item_id = none;
  manager_current_step = none;
  manager_state_updated_at = none;
}

abbrev pub row : ℕ → RolloutItemStatus → RolloutItem
row a t = record {
  item_id = a;
  status = t;
  claude_run_id = none;
  completed_at = none;
  merge_actor = none;
}

abbrev pub gtd_item : ℕ → Item
gtd_item a = record {
  id = a;
  user_id = 5;
  project_id = some 1;
  status = ItemStatus.ready;
  completed_at = none;
  version = 0;
  locked_by_rollout_id = none;
  assigned_to = [];
  acceptance_criteria = text "it runs" ∷ [];
  files_to_modify = text "main.py" ∷ [];
  build_engine = text "engine";
  commit_type = text "feat";
}

abbrev pub build_run : ℕ → ℕ → LocalRunStatus → Option ℕ → Run
build_run id item status remote = record {
  id = id;
  item_id = some item;
  rollout_id = some 7;
  mode = DispatchMode.build;
  status = status;
  remote_run_id = remote;
  finished_at = none;
  error_msg = [];
  user_id = 5;
  project_id = 1;
  created_at = some 100;
  started_at = none;
  dispatch_host_url = [];
  dispatch_host_id = none;
  allow_drained_host = false;
  max_turns = 100;
  engine_actual = none;
}

abbrev pub project : ℕ → ℕ → Project
project id owner = record {
  id = id;
  user_id = owner;
  is_workspace = false;
  workspace_repos = [];
  git_origin = text "git@host:repo.git";
  dispatch_timeout_minutes = none;
  dispatch_max_turns = none;
}

abbrev pub host_row : ℕ → Text → HostRow
host_row id name = record {
  user_id = 5;
  api_key = text "key";
  updated_at = 1;
  host = record {
    id = id;
    url = text "http://" ++ name;
    label = name;
    capability_labels = [];
    drain_reason = none;
  };
}

abbrev pub registry : Registry
registry = record {
  app_settings = [];
  user_settings = [];
  hosts = host_row 1 (text "a") ∷ host_row 2 (text "b") ∷ [];
}

abbrev pub first_before_second : List Edge
first_before_second = record { from_item_id = 1; to_item_id = 2 } ∷ []

abbrev pub db : RolloutItemStatus → Db
db first = record {
  wave = wave;
  rows = row 1 first ∷ row 2 RolloutItemStatus.pending ∷ [];
  plan = some first_before_second;
  events = [];
  items = gtd_item 1 ∷ gtd_item 2 ∷ [];
  dependencies = [];
  runs =
      build_run 21 1 LocalRunStatus.running (some 3)
      ∷ build_run 22 2 LocalRunStatus.pending none
      ∷ [];
  projects = project 1 5 ∷ [];
  members = [];
  comments = [];
  registry = registry;
}

abbrev pub ready_db : Db
ready_db = db RolloutItemStatus.ready
