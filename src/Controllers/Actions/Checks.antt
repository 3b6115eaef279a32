-- ===== src/Controllers/Actions/Checks.antt =====
-- The admission checks of an action execution: the concurrency policy and the required parameters.
use minato.Prelude.{
  false, ◌≡◌, refl, ◌≢◌, ◌⊎◌, ◌↔◌, String, none, List, [], ◌∷◌, eq_iff, arith, All,
}
use minato.Cluster.{ok}
use minato.Api.Meta.{StringMap, lookup}
use minato.Api.GameServer.{GameServer}
use minato.Api.ActionExecution.{
  ActionConcurrency, serialize, exclusive, ActionParamSchema, ActionDecl, ActionExecution, running,
}
use minato.Controllers.Actions.Model.{Call, World, missing_param, validate_params, first_blocker}
use minato.Controllers.Actions.Loop.{check_concurrency}

-- When a running execution conflicts with a new one, said without the loop.
abbrev pub Conflicts : ActionConcurrency → ActionExecution → String → ActionExecution → Type 0
Conflicts policy exec server_name other =
    (other.metadata.name ≢ exec.metadata.name)
    × (other.status.state ≡ running)
    × (other.spec.target_ref.name ≡ server_name)
    × ((policy ≡ exclusive)
        ⊎ ((policy ≡ serialize) × (other.spec.action_name ≡ exec.spec.action_name)))

first_blocker_sound :
    (policy : ActionConcurrency) (exec : ActionExecution) (server_name : String)
    (items : List ActionExecution)
    → first_blocker policy exec server_name items ≡ none
    → All (λ o. ¬ Conflicts policy exec server_name o) items
unfolding first_blocker
first_blocker_sound policy exec server_name [] h = tt
first_blocker_sound policy exec server_name (o ∷ rest) h = (
  λ c. ground (
    arith,
    eq_iff o.metadata.name exec.metadata.name,
    eq_iff o.spec.target_ref.name server_name,
    eq_iff o.spec.action_name exec.spec.action_name,
  ),
  first_blocker_sound policy exec server_name rest (ground arith),
)

first_blocker_complete :
    (policy : ActionConcurrency) (exec : ActionExecution) (server_name : String)
    (items : List ActionExecution)
    → All (λ o. ¬ Conflicts policy exec server_name o) items
    → first_blocker policy exec server_name items ≡ none
unfolding first_blocker
first_blocker_complete policy exec server_name [] h = refl
first_blocker_complete policy exec server_name (o ∷ rest) h = ground (
  arith,
  eq_iff o.metadata.name exec.metadata.name,
  eq_iff o.spec.target_ref.name server_name,
  eq_iff o.spec.action_name exec.spec.action_name,
  first_blocker_complete policy exec server_name rest,
)

-- The concurrency check lets an execution run exactly when the executions were listed and none of
-- them is another running execution on the same server that the policy excludes.
check_concurrency_iff :
    (w : World) (exec : ActionExecution) (server : GameServer) (decl : ActionDecl) (t : List Call)
    {items : List ActionExecution}
    → w.executions t server.metadata.namespace ≡ ok items
    → ((check_concurrency w exec server decl t).0 ≡ none)
      ↔ All (λ o. ¬ Conflicts decl.concurrency exec server.metadata.name o) items
unfolding check_concurrency
check_concurrency_iff w exec server decl t {items} h = rw h (
  first_blocker_sound decl.concurrency exec server.metadata.name items,
  first_blocker_complete decl.concurrency exec server.metadata.name items,
)

-- A parameter is optional or given.
abbrev pub IsGiven : StringMap → String × ActionParamSchema → Type 0
IsGiven given (name, param) = (param.required ≡ false) ⊎ (lookup name given ≢ none)

missing_param_sound :
    (given : StringMap) (params : List (String × ActionParamSchema))
    → missing_param given params ≡ none
    → All (IsGiven given) params
unfolding missing_param
missing_param_sound given [] h = tt
missing_param_sound given ((name, param) ∷ rest) h =
    (ground arith, missing_param_sound given rest (ground arith))

missing_param_complete :
    (given : StringMap) (params : List (String × ActionParamSchema))
    → All (IsGiven given) params
    → missing_param given params ≡ none
unfolding missing_param
missing_param_complete given [] h = refl
missing_param_complete given ((name, param) ∷ rest) h =
    ground (arith, missing_param_complete given rest, h.0)

-- Validation passes exactly when every required parameter of the action is given; in whatever order
-- Go visits the map of parameters.
validate_params_iff :
    (exec : ActionExecution) (decl : ActionDecl)
    → (validate_params exec decl ≡ none) ↔ All (IsGiven exec.spec.params) decl.params
unfolding validate_params
validate_params_iff exec decl = (
  λ h. missing_param_sound exec.spec.params decl.params (ground arith),
  λ h. ground (arith, missing_param_complete exec.spec.params decl.params),
)
