-- ===== src/Reaper/Types.antt =====
-- What a dispatch host answers about a run, and how a pass of the reaper goes on from it.
use agent_gtd.Prelude.{ℕ, Bool, true, false, Option}
use agent_gtd.Text.{Text}
use agent_gtd.Rollout.Types.{LocalRunStatus}

-- `RunStatus` of the dispatch protocol, as `LocalRunStatus.from_remote` lists it.
pub data RemoteRunStatus : Type 0 where
  succeeded already_satisfied failed timed_out cancelled pending running : RemoteRunStatus

-- The fields of `RunResponse` that are read.
pub record RemoteRun : Type 0 where
  pub status : RemoteRunStatus
  pub error : Text
  pub engine_actual : Option Text

-- What `_poll_remote_run` returns or raises. `other_error` is any other exception.
pub data Poll : Type 0 where
  reported : RemoteRun → Poll
  http_status_error : ℕ → Poll
  connect_error timeout http_error invalid_body other_error : Poll

pub data Resolution : Type 0 where
  no_remote_run_id no_host_url unmatched_host : Resolution
  owning_host : (remote_run_id : ℕ) (url api_key : Text) → Resolution

-- What is done about a run; the texts of the messages are left out but for that of the host.
pub data Decision : Type 0 where
  adopted : RemoteRun → Decision
  no_record host_active unreachable_timeout unreachable_wait : Decision

-- `LocalRunStatus.from_remote`
unfoldable pub from_remote : RemoteRunStatus → LocalRunStatus
from_remote RemoteRunStatus.succeeded = LocalRunStatus.success
from_remote RemoteRunStatus.already_satisfied = LocalRunStatus.success
from_remote RemoteRunStatus.failed = LocalRunStatus.failed
from_remote RemoteRunStatus.timed_out = LocalRunStatus.timeout
from_remote RemoteRunStatus.cancelled = LocalRunStatus.cancelled
from_remote RemoteRunStatus.pending = LocalRunStatus.pending
from_remote RemoteRunStatus.running = LocalRunStatus.running

-- `_TERMINAL_STATUSES`
abbrev pub is_terminal_remote : RemoteRunStatus → Bool
is_terminal_remote RemoteRunStatus.pending = false
is_terminal_remote RemoteRunStatus.running = false
is_terminal_remote _ = true
