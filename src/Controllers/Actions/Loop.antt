-- ===== src/Controllers/Actions/Loop.antt =====
-- `Reconcile` of ActionExecutionReconciler and the methods that it is made of,
-- internal/controllers/actionexecution_controller.go.
use minato.Prelude.{
  ℤ, String, not, ◌&&◌, Option, none, some, str_eq, ◌⧺◌, itoa, quote, ◌==◌, if◌then◌else◌,
}
use minato.Cluster.{
  Outcome, ok, fail, ApiErr, message, Key, key, Reconciled, done, unless_not_found, of_error, M,
  ◌>>=◌, ◌>>◌, pure, ask, tell, read_clock,
}
use minato.Api.GameServer.{GameServer}
use minato.Api.GameProfile.{GameProfile}
use minato.Api.ActionExecution.{ActionDecl, ActionExecutionState, ActionExecution}
use minato.Controllers.Actions.Model.{
  AgentRequest, Call, get_execution, get_server, get_profile, list_executions, get_service,
  update_status, observe, dial, execute_action, World, default_action_timeout, agent_grpc_port,
  find_action, validate_params, is_pending, is_unset, is_terminal, first_blocker, with_state,
  agent_outcome,
}

module _ (w : World) where
  -- `setState`: the error of the status update is dropped, and the object in memory is changed.
  unfoldable pub set_state :
      ActionExecution → ActionExecutionState → String → String → M Call ActionExecution
  unfolding with_state
  set_state exec state result err_msg = do
    now ← read_clock w.clock
    let exec' = with_state now exec state result err_msg
    (if is_terminal state then tell (observe exec.spec.action_name state) else pure tt)
    tell (update_status exec')
    pure exec'

  unfoldable pub check_concurrency :
      ActionExecution → GameServer → ActionDecl → M Call (Option String)
  unfolding first_blocker
  check_concurrency exec server decl = do
    listed ←
        ask (list_executions server.metadata.namespace)
          (λ t. w.executions t server.metadata.namespace)
    pure (elim listed [
      | fail e ↦ some ("failed to list action executions: " ⧺ message e)
      | ok items ↦ first_blocker decl.concurrency exec server.metadata.name items
    ])

  unfoldable pub dispatch_to_agent : GameServer → ActionExecution → ℤ → M Call (Outcome String)
  unfolding agent_outcome
  dispatch_to_agent server exec timeout = do
    let service = key server.metadata.name server.metadata.namespace
    found ← ask (get_service service) (λ t. w.service t service)
    elim found [
      | fail e ↦ pure (fail (ApiErr.other ("failed to get service: " ⧺ message e)))
      | ok svc ↦ do
        let address = svc.name ⧺ "." ⧺ svc.namespace ⧺ ".svc.cluster.local:" ⧺ itoa agent_grpc_port
        dialled ← ask (dial address) (λ t. w.connect t address)
        elim dialled [
          | some e ↦ pure (fail (ApiErr.other ("failed to connect to agent: " ⧺ message e)))
          | none ↦ do
            let request : AgentRequest = record {
              address = address;
              timeout = timeout;
              action_name = exec.spec.action_name;
              params = exec.spec.params;
              execution_id = exec.metadata.name;
            }
            answer ← ask (execute_action request) (λ t. w.execute t request)
            pure (agent_outcome answer)
        ]
    ]

  -- `setState(…, ActionExecutionRejected, "", reason)`, then an empty result.
  unfoldable pub reject : ActionExecution → String → M Call Reconciled
  unfolding set_state
  reject exec reason = do set_state exec ActionExecutionState.rejected "" reason; pure done

  -- The declared timeout where it is given and parses.
  unfoldable pub action_timeout : ActionDecl → ℤ
  action_timeout decl =
      if str_eq decl.timeout ""
      then default_action_timeout
      else elim (w.parse_duration decl.timeout) [ none ↦ default_action_timeout | some d ↦ d ]

  -- The end of a run: failed with the error's text, or succeeded with the result.
  unfoldable pub record_outcome : ActionExecution → Outcome String → M Call Reconciled
  record_outcome exec (fail e) = do
    set_state exec ActionExecutionState.failed "" (message e)
    pure done
  record_outcome exec (ok result) = do
    set_state exec ActionExecutionState.succeeded result ""
    pure done

  -- From the accepted action on: run it under the timeout and record how it ended.
  unfoldable pub run_action : ActionExecution → GameServer → ActionDecl → M Call Reconciled
  run_action exec server decl = do
    exec' ← set_state exec ActionExecutionState.running "" ""
    outcome ← dispatch_to_agent server exec' (action_timeout decl)
    record_outcome exec' outcome

  -- From the resolved profile on.
  unfoldable pub admit_action : ActionExecution → GameServer → GameProfile → M Call Reconciled
  admit_action exec server profile = elim (find_action exec.spec.action_name profile.spec.actions) [
    | none ↦ reject exec (
        "action "
        ⧺ quote exec.spec.action_name
        ⧺ " not found in profile "
        ⧺ quote profile.metadata.name)
    | some decl ↦ elim (validate_params exec decl) [
      | some reason ↦ reject exec reason
      | none ↦ do
        blocked ← check_concurrency exec server decl
        elim blocked [ some reason ↦ reject exec reason | none ↦ run_action exec server decl ]
    ]
  ]

  -- From the pending execution on: resolve the target server and its profile.
  unfoldable pub process : Key → ActionExecution → M Call Reconciled
  process req exec = do
    let target = exec.spec.target_ref
    let server_key =
        key target.name (if str_eq target.namespace "" then req.namespace else target.namespace)
    found ← ask (get_server server_key) (λ t. w.server t server_key)
    elim found [
      | fail (ApiErr.not_found m) ↦ reject exec "target GameServer not found"
      | fail e ↦ pure (unless_not_found e)
      | ok server ↦ do
        resolved ← ask (get_profile server.spec.profile) (λ t. w.profile t server.spec.profile)
        elim resolved [
          | fail (ApiErr.not_found m) ↦ reject exec "referenced GameProfile not found"
          | fail e ↦ pure (unless_not_found e)
          | ok profile ↦ admit_action exec server profile
        ]
    ]

  -- A new object: `Status.State` becomes pending, and the error of that write is returned.
  unfoldable pub mark_pending : ActionExecution → M Call Reconciled
  mark_pending exec = do
    let exec' = record exec {
      status = record (exec.status) { state = ActionExecutionState.pending };
    }
    err ← ask (update_status exec') (λ t. w.update t exec')
    pure (of_error err)

  -- `Reconcile`.
  unfoldable pub reconcile : Key → M Call Reconciled
  reconcile req = do
    got ← ask (get_execution req) (λ t. w.execution t req)
    elim got [
      | fail e ↦ pure (unless_not_found e)
      | ok exec ↦
          if exec.metadata.deletion_timestamp == 0 && is_unset exec.status.state
          then mark_pending exec
          else if not (is_pending exec.status.state)
          then pure done
          else process req exec
    ]
