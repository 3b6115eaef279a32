-- ===== src/Api/ActionExecution.antt =====
-- api/operator/v1/actionexecution_types.go.
use minato.Prelude.{ℕ, String, Bool, Option, List}
use minato.Api.Meta.{StringMap, ObjectMeta, Condition}

-- `ActionConcurrency`; the empty string and any other text act as `allow`.
pub data ActionConcurrency : Type 0 where
  allow serialize exclusive : ActionConcurrency

pub record ActionParamSchema : Type 0 where
  pub type : String
  pub required : Bool
  pub description : String
  pub default : String

pub record ActionDecl : Type 0 where
  pub name : String
  pub description : String
  pub params : List (String × ActionParamSchema)
  pub returns : String
  pub concurrency : ActionConcurrency
  pub timeout : String

pub record TargetRef : Type 0 where
  pub api_version : String
  pub kind : String
  pub name : String
  pub namespace : String

pub record ActionExecutionSpec : Type 0 where
  pub target_ref : TargetRef
  pub action_name : String
  pub params : StringMap
  pub caller : String

-- `ActionExecutionState`, with `unset` for the empty string of a new object.
pub data ActionExecutionState : Type 0 where
  unset pending running succeeded failed timed_out rejected : ActionExecutionState

pub record ActionExecutionStatus : Type 0 where
  pub state : ActionExecutionState
  pub started_at : Option ℕ
  pub ended_at : Option ℕ
  pub agent_response : String
  pub error : String
  pub conditions : List Condition

pub record ActionExecution : Type 0 where
  pub metadata : ObjectMeta
  pub spec : ActionExecutionSpec
  pub status : ActionExecutionStatus
