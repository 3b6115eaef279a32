-- ===== src/Examples/Actions.antt =====
-- The action controllers and the status conditions at concrete inputs.
use minato.Prelude.{◌≤◌, ◌≡◌, refl, ◌⊎◌, none, some, [], ◌∷◌}
use minato.Cluster.{ok, key, Key}
use minato.Api.Meta.{Condition, condition_true, condition_false}
use minato.Api.ActionExecution.{ActionExecution, ActionExecutionState, pending, succeeded}
use minato.Controllers.Actions.Model.{
  World, AgentResponse, AgentState, validate_params, find_action, missing_param, first_blocker,
}
use minato.Controllers.Actions.Loop.{reconcile}
use minato.Controllers.Actions.Lifecycle.{
  Walk, written, executed, reconcile-Walk, reconcile-executed,
}
use minato.Controllers.Actions.Completion.{EndsWith, last_written, reconcile_completes}
use minato.Controllers.Actions.Cleanup.{
  Expired, cleanup, deleted, execution_key, list_all, sweep, is_expired,
}
use minato.Examples.Data.{named, survival, announce, minecraft}

abbrev execution_in : ActionExecutionState → ActionExecution
execution_in state = record {
  metadata = named "say-hello";
  spec = record {
    target_ref = record {
      api_version = "";
      kind = "GameServer";
      name = "survival";
      namespace = "games";
    };
    action_name = "announce";
    params = ("text", "hello") ∷ [];
    caller = "";
  };
  status = record {
    state = state;
    started_at = none;
    ended_at = none;
    agent_response = "";
    error = "";
    conditions = [];
  };
}

abbrev say_hello : ActionExecution
say_hello = execution_in pending

abbrev late_answer : AgentResponse
late_answer = record { state = AgentState.timed_out; result = "said"; error = "too late" }

abbrev answering : ActionExecution → World
answering exec = record {
  execution = λ t k. ok exec;
  server = λ t k. ok survival;
  profile = λ t name. ok minecraft;
  executions = λ t ns. ok [];
  service = λ t k. ok (key "survival-agent" "games");
  update = λ t e. none;
  connect = λ t address. none;
  execute = λ t r. ok late_answer;
  clock = λ t. 1000;
  parse_duration = λ s. none;
}

abbrev request : Key
request = key "say-hello" "games"

reconcile_completes_example :
    EndsWith late_answer (last_written (reconcile (answering say_hello) request []).1)
unfolding find_action validate_params missing_param first_blocker
reconcile_completes_example =
    reconcile_completes (answering say_hello) request say_hello survival minecraft announce []
      (key "survival-agent" "games") late_answer (λ t k. refl) (λ t name. refl) refl refl
      (λ t ns. refl) refl (λ t k. refl) (λ t address. refl) (λ t r. refl) refl refl

reconcile-Walk_example :
    (final : ActionExecutionState) × Walk pending
      (written (reconcile (answering say_hello) request []).1)
      final
reconcile-Walk_example = reconcile-Walk (answering say_hello) request say_hello refl

reconcile-executed_example :
    (executed (reconcile (answering say_hello) request []).1 ≤ 1)
    × ((executed (reconcile (answering say_hello) request []).1 ≡ 0) ⊎ (pending ≡ pending))
reconcile-executed_example = reconcile-executed (answering say_hello) request say_hello refl

-- An execution that succeeded at the time 5, read more than seven days later.
abbrev old_success : ActionExecution
old_success = record (execution_in succeeded) {
  status = record (execution_in succeeded).status { ended_at = some 5 };
}

abbrev week_later : minato.Controllers.Actions.Cleanup.World
week_later = record { executions = λ t. ok (old_success ∷ []); clock = λ t. 604800000000010 }

abbrev saving : Condition
saving = record {
  type = "SnapshotReady";
  status = condition_false;
  reason = "Saving";
  message = "";
  observed_generation = 1;
  last_transition_time = 7;
}

abbrev ready : Condition
ready = record {
  type = "Ready";
  status = condition_true;
  reason = "Up";
  message = "";
  observed_generation = 1;
  last_transition_time = 3;
}
