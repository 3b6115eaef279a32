-- ===== src/Controllers/Actions/Completion.antt =====
-- A reconcile of a pending execution whose calls are answered: how it ends, and what it records.
use minato.Prelude.{
  ℤ, not, ◌≡◌, refl, ◌≢◌, ◌↔◌, ◌⊎◌, String, Option, none, some, List, [], ◌∷◌, arith, is_none, true,
  false, Bool,
}
use minato.Cluster.{ok, Key}
use minato.Api.GameServer.{GameServer}
use minato.Api.GameProfile.{GameProfile}
use minato.Api.ActionExecution.{ActionDecl, ActionExecution, pending, succeeded}
use minato.Controllers.Actions.Model.{
  AgentState, AgentResponse, AgentRequest, Call, get_execution, update_status, World, find_action,
  validate_params, first_blocker, with_state, agent_outcome,
}
use minato.Controllers.Actions.Lifecycle.{reconcile_pending}
use minato.Controllers.Actions.Loop.{
  record_outcome, set_state, check_concurrency, dispatch_to_agent, run_action, admit_action,
  process, reconcile,
}

-- The execution as it was last written to the API server.
abbrev pub last_written : List Call → Option ActionExecution
last_written [] = none
last_written (update_status exec ∷ t) = some exec
last_written (_ ∷ t) = last_written t

-- How a run ends: in a last write that is a success exactly where the agent reported neither failure
-- nor rejection, with the times of start and end set, and with the agent's result after a success.
abbrev pub EndsWith : AgentResponse → Option ActionExecution → Type 0
EndsWith answer none = ⊥
EndsWith answer (some final) =
    ((final.status.state ≡ succeeded)
      ↔ ((answer.state ≢ AgentState.failed) × (answer.state ≢ AgentState.rejected)))
    × ((final.status.state ≢ succeeded) ⊎ (final.status.agent_response ≡ answer.result))
    × (is_none final.status.started_at ≡ false)
    × (is_none final.status.ended_at ≡ false)

abbrev started : ActionExecution → Bool
started e = not (is_none e.status.started_at)

record_outcome-EndsWith :
    (w : World) (e : ActionExecution) (answer : AgentResponse) (t : List Call)
    → started e ≡ true
    → EndsWith answer (last_written (record_outcome w e (agent_outcome (ok answer)) t).1)
unfolding record_outcome set_state with_state agent_outcome
record_outcome-EndsWith w e answer t h = by_state answer.state answer.result answer.error
  where
    by_state :
        (s : AgentState) (result err : String)
        → let a : AgentResponse = record { state = s; result = result; error = err } in
          EndsWith a (last_written (record_outcome w e (agent_outcome (ok a)) t).1)
    by_state AgentState.failed result err = (ground arith, ground arith, ground arith, ground arith)
    by_state _ result err = (ground arith, ground arith, ground arith, ground arith)

module _ (w : World) (req : Key) (exec : ActionExecution) (server : GameServer)
    (profile : GameProfile) (decl : ActionDecl) (items : List ActionExecution) (svc : Key)
    (answer : AgentResponse) (server_found : (t : List Call) (k : Key) → w.server t k ≡ ok server)
    (profile_found : (t : List Call) (name : String) → w.profile t name ≡ ok profile)
    (declared : find_action exec.spec.action_name profile.spec.actions ≡ some decl)
    (valid : validate_params exec decl ≡ none)
    (listed : (t : List Call) (ns : String) → w.executions t ns ≡ ok items)
    (free : first_blocker decl.concurrency exec server.metadata.name items ≡ none)
    (service_found : (t : List Call) (k : Key) → w.service t k ≡ ok svc)
    (connected : (t : List Call) (address : String) → w.connect t address ≡ none)
    (answered : (t : List Call) (r : AgentRequest) → w.execute t r ≡ ok answer) where
  dispatch_answered :
      (e : ActionExecution) (timeout : ℤ) (t : List Call)
      → (dispatch_to_agent w server e timeout t).0 ≡ agent_outcome (ok answer)
  unfolding dispatch_to_agent
  dispatch_answered e timeout t = simp (service_found, connected, answered)

  run_action-EndsWith :
      (t : List Call) → EndsWith answer (last_written (run_action w exec server decl t).1)
  unfolding run_action set_state with_state
  run_action-EndsWith t = rw dispatch_answered (record_outcome-EndsWith w _ answer _ refl)

  admit_action-EndsWith :
      (t : List Call) → EndsWith answer (last_written (admit_action w exec server profile t).1)
  unfolding admit_action check_concurrency
  admit_action-EndsWith t =
      rw (declared, admit_action) (rw valid (rw listed (rw free (run_action-EndsWith _))))

  process-EndsWith : (t : List Call) → EndsWith answer (last_written (process w req exec t).1)
  unfolding process
  process-EndsWith t = rw (server_found, process) (rw profile_found (admit_action-EndsWith _))

  -- A pending execution whose target, profile and action exist, whose parameters are complete, which
  -- no running execution blocks and whose agent answers is run to its end by one reconcile: the last
  -- write is a success exactly where the agent reported neither failure nor rejection, it carries the
  -- agent's result after a success, and the times of start and end are set. So an agent that reports
  -- a time-out, or that the action is still pending or running, is recorded as a success.
  pub reconcile_completes :
      w.execution [] req ≡ ok exec
      → exec.status.state ≡ pending
      → EndsWith answer (last_written (reconcile w req []).1)
  reconcile_completes got p =
      rw (reconcile_pending w req exec got p) (process-EndsWith (get_execution req ∷ []))
