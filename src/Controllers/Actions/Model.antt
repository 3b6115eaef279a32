-- ===== src/Controllers/Actions/Model.antt =====
-- The data of ActionExecutionReconciler, internal/controllers/actionexecution_controller.go: the calls
-- that it makes, the services that it calls, and the functions of it that make no call.
use minato.Prelude.{
  ℕ, ℤ, pos, String, Bool, true, false, not, Option, none, some, List, [], ◌∷◌, str_eq, ◌⧺◌, quote,
  if◌then◌else◌,
}
use minato.Cluster.{Outcome, ok, fail, ApiErr, message, Key}
use minato.Api.Meta.{StringMap, condition_true, lookup}
use minato.Api.GameServer.{GameServer}
use minato.Api.GameProfile.{GameProfile}
use minato.Api.ActionExecution.{
  ActionConcurrency, serialize, exclusive, ActionParamSchema, ActionDecl, ActionExecutionState,
  ActionExecution,
}
use minato.Controllers.Conditions.{set_condition}

-- The agent's `ActionState`.
pub data AgentState : Type 0 where
  unspecified pending running succeeded failed timed_out rejected : AgentState

pub record AgentResponse : Type 0 where
  pub state : AgentState
  pub result : String
  pub error : String

pub record AgentRequest : Type 0 where
  pub address : String
  pub timeout : ℤ
  pub action_name : String
  pub params : StringMap
  pub execution_id : String

-- The calls of the reconciler; `observe` counts an ended execution in the metrics.
pub data Call : Type 0 where
  get_execution : Key → Call
  get_server : Key → Call
  get_profile : String → Call
  list_executions : String → Call
  get_service : Key → Call
  update_status : ActionExecution → Call
  observe : String → ActionExecutionState → Call
  dial : String → Call
  execute_action : AgentRequest → Call

-- The API server, the agent, the clock and Go's `time.ParseDuration`.
pub record World : Type 0 where
  pub execution : List Call → Key → Outcome ActionExecution
  pub server : List Call → Key → Outcome GameServer
  pub profile : List Call → String → Outcome GameProfile
  pub executions : List Call → String → Outcome (List ActionExecution)
  pub service : List Call → Key → Outcome Key
  pub update : List Call → ActionExecution → Option ApiErr
  pub connect : List Call → String → Option ApiErr
  pub execute : List Call → AgentRequest → Outcome AgentResponse
  pub clock : List Call → ℕ
  pub parse_duration : String → Option ℤ

abbrev pub default_action_timeout : ℤ
default_action_timeout = pos 300000000000

abbrev pub agent_grpc_port : ℕ
agent_grpc_port = 9876

-- The first action of the profile that has the name.
unfoldable pub find_action : String → List ActionDecl → Option ActionDecl
find_action name [] = none
find_action name (d ∷ ds) = if str_eq d.name name then some d else find_action name ds

-- The name of the first required parameter that is not given, in the order of the map's range loop.
unfoldable pub missing_param : StringMap → List (String × ActionParamSchema) → Option String
unfolding lookup
missing_param given [] = none
missing_param given ((name, param) ∷ rest) =
    let later = missing_param given rest in
    if param.required then elim (lookup name given) [ none ↦ some name | some v ↦ later ] else later

-- `nil`, or the text of the error.
unfoldable pub validate_params : ActionExecution → ActionDecl → Option String
unfolding missing_param
validate_params exec decl = elim (missing_param exec.spec.params decl.params) [
  | none ↦ none
  | some name ↦ some ("required param " ⧺ quote name ⧺ " missing")
]

abbrev pub is_pending : ActionExecutionState → Bool
is_pending ActionExecutionState.pending = true
is_pending _ = false

abbrev pub is_unset : ActionExecutionState → Bool
is_unset ActionExecutionState.unset = true
is_unset _ = false

abbrev pub is_running : ActionExecutionState → Bool
is_running ActionExecutionState.running = true
is_running _ = false

-- The four states in which an execution has ended.
abbrev pub is_terminal : ActionExecutionState → Bool
is_terminal ActionExecutionState.succeeded = true
is_terminal ActionExecutionState.failed = true
is_terminal ActionExecutionState.timed_out = true
is_terminal ActionExecutionState.rejected = true
is_terminal _ = false

-- The `switch` on the policy: the reason why a running execution blocks this one.
unfoldable pub blocked_by : ActionConcurrency → ActionExecution → ActionExecution → Option String
blocked_by exclusive exec other =
    some ("exclusive action blocked by running execution " ⧺ quote other.metadata.name)
blocked_by serialize exec other =
    if str_eq other.spec.action_name exec.spec.action_name
    then some ("serialized action blocked by running execution " ⧺ quote other.metadata.name)
    else none
blocked_by _ exec other = none

-- The loop of `checkConcurrency` over the listed executions: the reason of the first that blocks.
unfoldable pub first_blocker :
    ActionConcurrency → ActionExecution → String → List ActionExecution → Option String
unfolding blocked_by
first_blocker policy exec server_name [] = none
first_blocker policy exec server_name (other ∷ rest) =
    let later = first_blocker policy exec server_name rest in
    if str_eq other.metadata.name exec.metadata.name
    then later
    else if not (is_running other.status.state)
    then later
    else if not (str_eq other.spec.target_ref.name server_name)
    then later
    else elim (blocked_by policy exec other) [ none ↦ later | some reason ↦ some reason ]

abbrev pub state_name : ActionExecutionState → String
state_name ActionExecutionState.unset = ""
state_name ActionExecutionState.pending = "Pending"
state_name ActionExecutionState.running = "Running"
state_name ActionExecutionState.succeeded = "Succeeded"
state_name ActionExecutionState.failed = "Failed"
state_name ActionExecutionState.timed_out = "TimedOut"
state_name ActionExecutionState.rejected = "Rejected"

-- What `setState` writes into the object, at the time `now`.
unfoldable pub with_state :
    ℕ → ActionExecution → ActionExecutionState → String → String → ActionExecution
with_state now exec state result err_msg = record exec {
  status = record {
    state = state;
    started_at = if is_running state then some now else exec.status.started_at;
    ended_at = if is_terminal state then some now else exec.status.ended_at;
    agent_response = result;
    error = err_msg;
    conditions = set_condition exec.status.conditions (record {
      type = state_name state;
      status = condition_true;
      reason = state_name state;
      message = err_msg;
      observed_generation = exec.metadata.generation;
      last_transition_time = now;
    });
  };
}

-- The agent's answer as `(string, error)`.
unfoldable pub agent_outcome : Outcome AgentResponse → Outcome String
agent_outcome (fail e) = fail (ApiErr.other ("agent execution failed: " ⧺ message e))
agent_outcome (ok r) = elim r.state [
  | AgentState.failed ↦ fail (ApiErr.other ("agent reported failure: " ⧺ r.error))
  | AgentState.rejected ↦ fail (ApiErr.other ("agent rejected action: " ⧺ r.error))
  | _ ↦ ok r.result
]
