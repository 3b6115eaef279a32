-- ===== src/Agent/Steps.antt =====
-- The execution of an action, sdk/agent/actions/steps.go. The runtime is a parameter, and so are
-- text/template and time.ParseDuration.
use minato.Prelude.{
  ℤ, String, ◌⧺◌, Bool, true, not, ◌&&◌, Option, none, some, List, [], ◌∷◌, if◌then◌else◌, str_eq,
  codes, Bytes, bytes_eq, to_lower, is_space, onto_first,
}
use minato.Cluster.{Outcome, ok, fail, ApiErr, M, pure}
use minato.Api.Meta.{StringMap, lookup, insert, label}
use minato.Api.ActionExecution.{ActionParamSchema}
use minato.Agent.Catalog.{Step, ActionDefinition}

-- The methods of the runtime.
pub data Call : Type 0 where
  rcon : String → Call
  exec : String → List Bytes → Call
  sleep : ℤ → Call
  http : String → String → String → Call
  signal : String → String → Call

pub record Libraries : Type 0 where
  pub template : String → StringMap → Option String
  pub parse_duration : String → Outcome ℤ

-- What the runtime answers after the calls made so far.
abbrev pub Runtime : Type 0
Runtime = List Call → Call → Outcome String

-- A text that is no template, or that fails, stands for itself.
abbrev or_input : Option String → String → String
or_input none input = input
or_input (some text) input = text

abbrev is_end : Bytes → Bool
is_end [] = true
is_end (c ∷ s) = is_space c

-- `strings.Fields`.
unfoldable pub fields : Bytes → List Bytes
fields [] = []
fields (c ∷ s) =
    let rest = fields s in
    if is_space c then rest else if is_end s then (c ∷ []) ∷ rest else onto_first c rest

unfoldable pub split_args : String → List Bytes
unfolding fields
split_args input = fields (codes input)

-- The variables: the given parameters, or else the defaults; `fail` is a required one that is missing.
unfoldable pub variables_of :
    StringMap → List (String × ActionParamSchema) → StringMap → Outcome StringMap
variables_of params [] vars = ok vars
variables_of params ((key, schema) ∷ schemas) vars = elim (lookup key params) [
  | some value ↦ variables_of params schemas (insert key value vars)
  | none ↦
      let kept = variables_of params schemas vars in
      let filled = variables_of params schemas (insert key schema.default vars) in
      if schema.required
      then fail (ApiErr.other ("missing required param " ⧺ key))
      else if not (str_eq schema.default "")
      then filled
      else kept
]

-- What a step asks for, and whether its answer is kept, or an error.
pub data StepRequest : Type 0 where
  keeps : Call → StepRequest
  drops : Call → StepRequest
  refuses : ApiErr → StepRequest

abbrev slept : Outcome ℤ → StepRequest
slept (ok d) = drops (sleep d)
slept (fail e) = refuses e

-- A step that only has an error returns the empty text.
abbrev pub unit_of : Outcome String → Outcome String
unit_of (ok value) = ok ""
unit_of (fail e) = fail e

unfoldable pub answered : Runtime → StepRequest → M Call (Outcome String)
answered runtime (refuses e) t = (fail e, t)
answered runtime (keeps call) t = (runtime t call, call ∷ t)
answered runtime (drops call) t = (unit_of (runtime t call), call ∷ t)

unfoldable pub kept_output : Step → String → StringMap → StringMap
kept_output step value outputs =
    if not (str_eq step.name "") && not (str_eq value "")
    then insert step.name value outputs
    else outputs

module _ (l : Libraries) where
  unfoldable pub render_template : String → StringMap → String
  render_template input vars =
      if str_eq input "" then "" else or_input (l.template input vars) input

  unfoldable pub input_of : Step → StringMap → String → String
  unfolding render_template label
  input_of step vars name = render_template (label name step.inputs) vars

  -- The switch over the type of a step.
  unfoldable pub request_of : Step → StringMap → StepRequest
  unfolding input_of split_args
  request_of step vars =
      let type = to_lower (codes step.type) in
      if bytes_eq type (codes "rcon")
      then keeps (rcon (input_of step vars "command"))
      else if bytes_eq type (codes "exec")
      then keeps (exec (input_of step vars "command") (split_args (input_of step vars "args")))
      else if bytes_eq type (codes "sleep")
      then slept (l.parse_duration (input_of step vars "duration"))
      else if bytes_eq type (codes "http")
      then keeps (
          http (input_of step vars "method") (input_of step vars "url") (input_of step vars "body"))
      else if bytes_eq type (codes "signal")
      then drops (signal (input_of step vars "target") (input_of step vars "signal"))
      else refuses (ApiErr.other ("unsupported step type " ⧺ step.type))

  unfoldable pub execute_step : Runtime → Step → StringMap → M Call (Outcome String)
  unfolding request_of answered
  execute_step runtime step vars = answered runtime (request_of step vars)

  -- The loop over the steps; the first error ends it.
  unfoldable pub run_steps :
      Runtime → StringMap → List Step → StringMap → M Call (Outcome StringMap)
  unfolding execute_step kept_output
  run_steps runtime vars [] outputs t = (ok outputs, t)
  run_steps runtime vars (step ∷ steps) outputs t =
      let (result, t') = execute_step runtime step vars t in
      elim result [
        | fail e ↦ (fail e, t')
        | ok value ↦ run_steps runtime vars steps (kept_output step value outputs) t'
      ]

  -- The outputs of the steps. Without a runtime it is an error.
  unfoldable pub execute :
      Option Runtime → ActionDefinition → StringMap → M Call (Outcome StringMap)
  unfolding variables_of run_steps
  execute none action params = pure (fail (ApiErr.other "runtime is nil"))
  execute (some runtime) action params = elim (variables_of params action.params []) [
    | fail e ↦ pure (fail e)
    | ok vars ↦ run_steps runtime vars action.steps []
  ]
