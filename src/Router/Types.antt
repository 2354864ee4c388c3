-- ===== src/Router/Types.antt =====
-- The rows and answers that the router reads, and what it returns or raises.
use agent_gtd.Prelude.{ℕ, ◌≡◌, arith, Bool, true, false, if◌then◌else◌, Option, List}
use agent_gtd.Text.{Text}

-- dispatch_hosts
pub record Host : Type 0 where
  pub id : ℕ
  pub url : Text
  pub label : Text
  pub capability_labels : List Text
  pub drain_reason : Option Text

-- The JSON of GET /info.
pub record Info : Type 0 where
  pub engines : List Text
  pub agents : List Text
  pub max_concurrent_runs : ℕ
  pub active_runs : ℕ
  pub parked_rollout_loops : ℕ

-- What a failed fetch raised, by the most specific class that the code tests for. `other` is any
-- exception that is not a `RequestError`, such as one of the JSON decoder.
pub data FetchError : Type 0 where
  timeout connect_error : FetchError
  http_status_error : ℕ → FetchError
  request_error other : FetchError

pub data Fetched : Type 0 where
  answered : Info → Fetched
  failed : FetchError → Fetched

-- The texts that `_classify_info_failure` returns.
pub data Failure : Type 0 where
  no_response refused : Failure
  status : ℕ → Failure
  unreachable invalid : Failure

-- `isinstance(exc, C)`: TimeoutException and ConnectError are RequestErrors, HTTPStatusError is not.
pub data ErrorClass : Type 0 where
  timeout_exception connect_error_class http_status_error_class request_error_class : ErrorClass

-- `verbatim` is the text of the operator alone, which a refused pin quotes.
pub data Reason : Type 0 where
  draining verbatim : Text → Reason
  missing_labels : List Text → Reason
  at_capacity : Reason
  no_info : Failure → Reason
  no_engine : Text → Reason
  no_agent : Reason

-- An entry of `hosts_checked`.
pub record Skip : Type 0 where
  pub host : Text
  pub reason : Reason

-- The host, or the exception.
pub data Routing : Type 0 where
  chosen : Host → Routing
  not_found : ℕ → Routing
  host_draining : List Skip → Routing
  unmet_capability : List Text → List Skip → Routing
  no_compatible_host : List Skip → Routing
  host_full : Host → Routing

pub is_instance : FetchError → ErrorClass → Bool
is_instance timeout timeout_exception = true
is_instance timeout request_error_class = true
is_instance connect_error connect_error_class = true
is_instance connect_error request_error_class = true
is_instance (http_status_error code) http_status_error_class = true
is_instance request_error request_error_class = true
is_instance _ _ = false

-- `exc.response.status_code`
abbrev pub status_code : FetchError → ℕ
status_code (http_status_error code) = code
status_code _ = 0

pub classify_info_failure : FetchError → Failure
unfolding is_instance
classify_info_failure exc =
    if is_instance exc timeout_exception
    then no_response
    else if is_instance exc connect_error_class
    then refused
    else if is_instance exc http_status_error_class
    then status (status_code exc)
    else if is_instance exc request_error_class
    then unreachable
    else invalid

-- Every failure keeps a reason of its own: two fetches are reported alike only if they failed alike.
pub classify_info_failure_injective :
    (a b : FetchError) → classify_info_failure a ≡ classify_info_failure b → a ≡ b
unfolding classify_info_failure
classify_info_failure_injective a b h = ground arith
