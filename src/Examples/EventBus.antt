-- ===== src/Examples/EventBus.antt =====
-- A bus with two subscribers, the owner and a member of a project, and a stranger.
use agent_gtd.Prelude.{ℕ, ◌+◌, ◌≡◌, refl, arith, Option, none, some, List, [], ◌∷◌, ◌++◌, filter}
use agent_gtd.Rollout.Db.{Project, Member}
use agent_gtd.Examples.Data.{project}
use agent_gtd.EventBus.{Event, Bus, queue_maxsize, may_read, replay_since}
use agent_gtd.EventBus.Queues.{keep_last}
use agent_gtd.EventBus.Promise.{IsSound}
use agent_gtd.EventBus.Latest.{publish_all, news, publish_all_refines}
use agent_gtd.EventBus.Replay.{replay_since_lem}

abbrev event : ℕ → ℕ → Option ℕ → Event
event id user project = record {
  id = id;
  user_id = user;
  event_type = [];
  entity_type = [];
  entity_id = 0;
  project_id = project;
  payload = [];
  created_at = 100 + id;
}

abbrev projects : List Project
projects = project 1 5 ∷ []

abbrev members : List Member
members = record { project_id = 1; user_id = 6 } ∷ []

abbrev empty_bus : Bus
empty_bus = record { subscribers = []; queues = λ h. []; next = 0; events = [] }

abbrev two_readers : Bus
two_readers = record {
  subscribers = record { user_id = 5; queue = 0 } ∷ record { user_id = 6; queue = 1 } ∷ [];
  queues = λ h. [];
  next = 2;
  events = [];
}

two_readers-IsSound : IsSound two_readers
two_readers-IsSound = record {
  bounded = λ h. omega arith;
  distinct = (refl, (refl, tt));
  fresh = λ h m. ground arith;
}

abbrev events : List Event
events = event 1 5 (some 1) ∷ event 2 7 (some 1) ∷ event 3 5 none ∷ []

publish_all_refines_example :
    ((publish_all projects members events two_readers).queues 1
      ≡ keep_last queue_maxsize (two_readers.queues 1 ++ news projects members 6 events))
    × ((publish_all projects members events two_readers).events ≡ two_readers.events ++ events)
publish_all_refines_example =
    publish_all_refines projects members 1 6 events two_readers two_readers-IsSound refl

-- The member is told of the two events of the project.
news_run :
    news projects members 6 events ≡ some (event 1 5 (some 1)) ∷ some (event 2 7 (some 1)) ∷ []
news_run = refl

replay_since_lem_example :
    replay_since 6 1 (1 ∷ []) ([] ++ event 1 5 (some 1) ∷ event 2 7 (some 1) ∷ event 3 5 none ∷ [])
    ≡ filter (may_read 6 (1 ∷ [])) (event 2 7 (some 1) ∷ event 3 5 none ∷ [])
replay_since_lem_example =
    replay_since_lem 6 (1 ∷ []) (event 1 5 (some 1)) [] (event 2 7 (some 1) ∷ event 3 5 none ∷ [])
      (refl, (refl, (refl, tt))) refl refl
