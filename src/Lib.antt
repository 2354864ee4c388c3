-- ===== src/Lib.antt =====
-- Agent GTD: the model of the code that plans and runs rollouts, and what it is shown to do.
--
-- A rollout (in the tables also: wave) is a set of items with a plan, a graph of edges "finish
-- this one first". A lead starts it; a manager asks which items may go next, dispatches a build
-- run for each, and records the outcome of each, which readies the items behind it and in the end
-- closes the rollout. A rollout can be halted or cancelled on the way. The parts:
--
-- * Dag (src/agent_gtd/services/rollout_dag.py): the edges of a plan, from the blockers that users
--   recorded and from pairs of items that touch a common file, merged, and refused if they have a
--   cycle. Dag/Kahn is `assert_acyclic`, with its children for the proofs; Dag/Edges and
--   Dag/Derive show which edges `derive_edges` returns. Dag/Paths compares two literal paths;
--   Dag/Directory describes what an entry names, and Dag/Overlap compares the two.
--   Graph holds edges, paths and cycles.
-- * Rollout (src/agent_gtd/services/rollout_service.py): Rollout/Types has the enumerations of
--   src/agent_gtd/models.py; Rollout/Db the tables (src/agent_gtd/database.py) and the calls that
--   read and write them; Rollout/Events the event log; Rollout/Graph `_unblock_successors` and
--   `advance_rollout`; Rollout/Complete `complete_item_in_rollout`, with its outcome in a child;
--   Rollout/Lifecycle `start_rollout`, `update_rollout_state`, `reset_rollout_item`,
--   `cancel_rollout`, `halt_rollout` and the linkage of a build run in `create_run`
--   (src/agent_gtd/services/dispatch_service.py); Rollout/Runs the child runs and their
--   cancellation; Rollout/Locks the item locks (src/agent_gtd/services/rollout_lock_service.py);
--   Rollout/Items `complete_item` (src/agent_gtd/services/item_service.py) with
--   `check_halted_rollout_completion`; Rollout/Access who may see what, and comments
--   (src/agent_gtd/services/project_service.py, src/agent_gtd/services/comment_service.py);
--   Rollout/Resume `_resume_halted_rollout`; Rollout/Plan `plan_rollout`, with `validate_legality_contract` in Rollout/Plan/Legality.
-- * Rollout/History holds sequences of requests on one rollout: starts, state reports, dispatch
--   links, resets, completions, halts and cancellations. A resumption is modelled apart and is not
--   among them. Rollout/Keeps and
--   Rollout/Complete/Keeps are the rules for what such calls keep. Rollout/Precedence,
--   Rollout/Sequence, Rollout/Statuses, Rollout/Stop and Rollout/Refusals hold what is proved of
--   the calls and of histories, each named for its subject.
-- * Blockers (src/agent_gtd/services/item_service.py): `_would_create_cycle`, `add_blocker` and
--   `remove_blocker`. Blockers/Scan and Blockers/Search are about the search, Blockers/Graph and
--   Blockers/Calls about the graph that the calls leave.
-- * Items (src/agent_gtd/services/item_service.py): `update_item`, `claim_item` and `release_item`.
--   Items/Guards is about what is refused, Items/Asks and Items/Effect describe what an update asks and
--   what it writes, Items/Rows about the rows of an update, Items/Calls about
--   sequences of calls, Items/Version about the version of an item, Items/Stamps about its completion
--   time, Items/Claims about claims, Items/Complete about `complete_item`, which is modelled apart
--   in Rollout/Items.
-- * Router (src/agent_gtd/services/dispatch_router.py): `pick_dispatch_host`, with a child module
--   for the automatic choice (Router/Choice, Router/Auto), its errors (Router/Refusals) and the
--   choice of a named host (Router/Pinned).
-- * Settings (src/agent_gtd/services/settings_service.py): the settings of the deployment and of a
--   user, and the dispatch hosts, with Settings/Hosts for the calls on a registered host.
--   Settings/Requests holds sequences of calls, Settings/Sound what they keep, with Settings/Rows
--   for the table; Settings/Store is about reading a setting back; Settings/Rotation about a drained
--   host in the router, with Settings/Lookup for finding a host.
-- * Dispatch (src/agent_gtd/services/dispatch_service.py): `create_run`, and in Dispatch/Cancel
--   `cancel_run` and `reconcile_orphans`, in Dispatch/Loop the relaunch of a rollout's loop (its
--   preflight and its run). Dispatch/Single is about the run that is made, with
--   Dispatch/Stale for the runs that went stale, Dispatch/Stored for storing one and Dispatch/Silent for the calls that leave the
--   runs alone; Dispatch/Refusal about cancellations,
--   Dispatch/Owner about the host of a relaunch. Rollout/Ensures has the rules for what a call
--   that returns has established.
-- * Reaper (src/agent_gtd/services/run_reaper.py): a pass over the runs that are stuck, with the
--   timeouts of src/agent_gtd/dispatch_worker.py. Reaper/Ended is about runs that have ended;
--   Reaper/Progress about runs whose host does not answer, with Reaper/Fatal (what is decided),
--   Reaper/Written (what is written) and Reaper/Waits (what stays meanwhile).
-- * EventBus (src/agent_gtd/event_bus.py): the queues of subscribers, with the store of the queues
--   and their identities explicit. EventBus/Queues is about one queue, EventBus/Delivery about who
--   gets an event, EventBus/Promise and EventBus/Latest about sequences of calls, EventBus/Replay
--   about a client that reconnects.
-- * Prelude (tests and lists over the native numbers), Text, Exceptions
--   (src/agent_gtd/exceptions.py). Examples runs the theorems on small data.
--
-- How the code is modelled. A service function is a `Call`: from a database to a result and a
-- database. What was written before an error stays written, since each statement commits by
-- itself. Functions have the names of the code, without a leading underscore. A database is seen
-- from one rollout: its row, its plan and its events, and the shared tables whole. Ids
-- are numbers, compared only for equality; times are whole seconds; a new id and the present time
-- are arguments. The tables of the settings are a part of the database, `registry`, and the calls of
-- Settings read and write that part alone. What a settings call raises is its own type. A column
-- that no modelled operation reads is left out, such as `updated_at` of items and runs. The
-- dictionary of statuses is a list of pairs in the order of the rows. The empty `merge_actor` and
-- the empty `remote_run_id` are `none`. The item-level comment of a halt omits the printed id of
-- the project-level comment.
--
-- Fuel. Two loops run on fuel. The loop of `assert_acyclic` has as many steps as there are nodes
-- and edges, since each step takes a node that was queued at the start or when a count came to 1.
-- The search of `_would_create_cycle` has one step more than there are recorded blockers, since
-- each step takes the start or a blocker that some row named for the first time.
-- Counts stop at 0 where the code goes below; the code queues a node only when a count comes from
-- 1 to 0.
--
-- Not modelled: of `resume_rollout` the checks, the sweep of done items and how they are put together
-- with the relaunch of the loop, `dispatch_rollout_run`, the comparison of two file entries but for literal paths (an argument of
-- `derive_edges`), the HTTP calls to hosts (their answers are an argument of the router
-- and of the reaper), whether
-- a user has configured a dispatch host (an argument of `plan_rollout`), and the queries
-- that feed displays. Labels are ASCII. Publishing to subscribers, logging and the
-- forwarding of a cancellation to a host are left out, since they do not touch these tables. A
-- request runs to its end before the next: interleavings inside a call are not modelled, but for
-- the reaper, whose passes have the work of other requests as an argument. Timeouts are not
-- negative. The modes
-- of a run are those of the dispatch protocol; only whether a run is a manager matters.
mod Prelude
pub mod Text
pub mod Exceptions
pub mod Graph
pub mod Dag
pub mod Blockers
pub mod EventBus
pub mod Router
pub mod Settings
pub mod Items
pub mod Rollout
pub mod Reaper
pub mod Dispatch
mod Examples
