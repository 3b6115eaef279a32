-- ===== src/Controllers/Actions/Lifecycle.antt =====
-- What a reconcile of an action execution writes and runs, over every behaviour of the API server and
-- of the agent.
use minato.Prelude.{ℕ, suc, ◌≡◌, refl, ◌≢◌, ◌⊎◌, inl, inr, ◌+◌, ◌≤◌, String, List, [], ◌∷◌, arith}
use minato.Cluster.{ok, Key, done}
use minato.Api.GameServer.{GameServer}
use minato.Api.GameProfile.{GameProfile}
use minato.Api.ActionExecution.{
  ActionDecl, ActionExecution, ActionExecutionState, unset, pending, running, succeeded, failed,
  rejected,
}
use minato.Controllers.Actions.Model.{
  Call, get_execution, update_status, execute_action, World, agent_outcome,
}
use minato.Controllers.Actions.Loop.{
  set_state, reject, dispatch_to_agent, check_concurrency, record_outcome, run_action, admit_action,
  process, mark_pending, reconcile,
}

-- The lifecycle of an execution.
infix 40 ◌⟶◌
pub data ◌⟶◌ : ActionExecutionState → ActionExecutionState → Type 0 where
  admit : unset ⟶ pending
  start : pending ⟶ running
  refuse : pending ⟶ rejected
  finish : running ⟶ succeeded
  break : running ⟶ failed

-- `Walk s written`: the states written, newest first, follow the lifecycle from `s`.
pub data Walk (s : ActionExecutionState)
    : List ActionExecutionState → ActionExecutionState → Type 0 where
  here : Walk s [] s
  next :
      {u v : ActionExecutionState} {l : List ActionExecutionState}
      → Walk s l u
      → u ⟶ v
      → Walk s (v ∷ l) v

-- The states written to the API server, newest first.
abbrev pub written : List Call → List ActionExecutionState
written [] = []
written (update_status exec ∷ t) = exec.status.state ∷ written t
written (_ ∷ t) = written t

-- How often the agent was asked to run the action.
abbrev pub executed : List Call → ℕ
executed [] = 0
executed (execute_action r ∷ t) = suc (executed t)
executed (_ ∷ t) = executed t

-- What a stretch of the loop did to the states `l` written and the `n` runs made before it: nothing,
-- a rejection, or one run.
data Did (l : List ActionExecutionState) (n : ℕ) (t : List Call) : Type 0 where
  nothing : written t ≡ l → executed t ≡ n → Did l n t
  refused : written t ≡ rejected ∷ l → executed t ≡ n → Did l n t
  broke : written t ≡ failed ∷ running ∷ l → executed t ≤ n + 1 → Did l n t
  finished : written t ≡ succeeded ∷ running ∷ l → executed t ≡ n + 1 → Did l n t

module _ (w : World) where
  run_action-Did :
      (exec : ActionExecution) (server : GameServer) (decl : ActionDecl) (t : List Call)
      → Did (written t) (executed t) (run_action w exec server decl t).1
  unfolding run_action record_outcome set_state dispatch_to_agent agent_outcome
  run_action-Did exec server decl t = grind (arith, broke, finished)

  reject-Did :
      (exec : ActionExecution) (reason : String) (t : List Call)
      → Did (written t) (executed t) (reject w exec reason t).1
  unfolding reject
  reject-Did exec reason t = refused refl refl

  admit_action-Did :
      (exec : ActionExecution) (server : GameServer) (profile : GameProfile) (t : List Call)
      → Did (written t) (executed t) (admit_action w exec server profile t).1
  unfolding admit_action check_concurrency
  admit_action-Did exec server profile t = grind (arith, reject-Did, run_action-Did)

  process-Did :
      (req : Key) (exec : ActionExecution) (t : List Call)
      → Did (written t) (executed t) (process w req exec t).1
  unfolding process
  process-Did req exec t = grind (arith, nothing, reject-Did, admit_action-Did)

  mark_pending-written :
      (exec : ActionExecution) (t : List Call)
      → (written (mark_pending w exec t).1 ≡ pending ∷ written t)
        × (executed (mark_pending w exec t).1 ≡ executed t)
  unfolding mark_pending
  mark_pending-written exec t = (refl, refl)

  Did-executed : {l : List ActionExecutionState} (t : List Call) → Did l 0 t → executed t ≤ 1
  Did-executed t (nothing v r) = omega arith
  Did-executed t (refused v r) = omega arith
  Did-executed t (broke v r) = omega arith
  Did-executed t (finished v r) = omega arith

  Did-Walk :
      {s : ActionExecutionState} {n : ℕ} (t : List Call)
      → s ≡ pending
      → Did [] n t
      → (final : ActionExecutionState) × Walk s (written t) final
  Did-Walk {s} t e (nothing v r) = (s, rw v here)
  Did-Walk t e (refused v r) = (rejected, rw (v, e) (next here refuse))
  Did-Walk t e (broke v r) = (failed, rw (v, e) (next (next here start) break))
  Did-Walk t e (finished v r) = (succeeded, rw (v, e) (next (next here start) finish))

  module _ (req : Key) (exec : ActionExecution) (got : w.execution [] req ≡ ok exec) where
    reconcile-cases :
        ((exec.status.state ≡ unset)
          × (reconcile w req [] ≡ mark_pending w exec (get_execution req ∷ [])))
        ⊎ ((exec.status.state ≡ pending)
            × (reconcile w req [] ≡ process w req exec (get_execution req ∷ [])))
        ⊎ (reconcile w req [] ≡ (done, get_execution req ∷ []))
    unfolding reconcile
    reconcile-cases = ground arith

    -- The states that one reconcile of an execution writes follow the lifecycle from the state that it
    -- read, whatever the API server and the agent answer after the read.
    pub reconcile-Walk :
        (final : ActionExecutionState) × Walk exec.status.state
          (written (reconcile w req []).1)
          final
    reconcile-Walk = elim reconcile-cases [
      | inl (e, r) ↦ (
        pending,
        rw (r, (mark_pending-written exec (get_execution req ∷ [])).0) (rw e (next here admit)),
      )
      | inr (inl (e, r)) ↦ rw r (
          Did-Walk (process w req exec (get_execution req ∷ [])).1 e
            (process-Did req exec (get_execution req ∷ [])))
      | inr (inr r) ↦ (exec.status.state, rw r here)
    ]

    -- A reconcile of an execution that was read asks the agent at most once to run the action, and not
    -- at all unless the execution was read as pending.
    pub reconcile-executed :
        (executed (reconcile w req []).1 ≤ 1)
        × ((executed (reconcile w req []).1 ≡ 0) ⊎ (exec.status.state ≡ pending))
    reconcile-executed = elim reconcile-cases [
      | inl (e, r) ↦ ground (arith, mark_pending-written exec (get_execution req ∷ []))
      | inr (inl (e, r)) ↦
          rw r (Did-executed _ (process-Did req exec (get_execution req ∷ [])), inr e)
      | inr (inr r) ↦ ground arith
    ]

    -- An execution that was read in a state other than unset and pending is left alone: the reconcile
    -- makes no call after the read. So an execution that is running when the operator stops stays so.
    reconcile_settled :
        exec.status.state ≢ unset
        → exec.status.state ≢ pending
        → reconcile w req [] ≡ (done, get_execution req ∷ [])
    unfolding reconcile
    reconcile_settled u p = ground arith

    pub reconcile_pending :
        exec.status.state ≡ pending
        → reconcile w req [] ≡ process w req exec (get_execution req ∷ [])
    unfolding reconcile
    reconcile_pending p = ground arith
