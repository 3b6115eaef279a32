-- ===== src/Agent/Order.antt =====
-- In which order an action makes its calls, sdk/agent/actions/steps.go.
use minato.Prelude.{
  ◌≡◌, refl, sym, ap, subst, ◌∙◌, ◌⊎◌, inl, inr, some, List, [], ◌∷◌, ◌++◌, String,
}
use minato.Cluster.{Outcome, ok, fail, ApiErr, Outcome-cases}
use minato.Api.Meta.{StringMap}
use minato.Agent.Catalog.{Step, ActionDefinition}
use minato.Agent.Steps.{
  Call, Libraries, Runtime, StepRequest, keeps, drops, refuses, request_of, answered, unit_of,
  execute_step, kept_output, run_steps, execute, variables_of,
}

-- The calls, one after the other, onto those made before, the newest first.
abbrev pub onto : List Call → List Call → List Call
onto [] t = t
onto (call ∷ calls) t = onto calls (call ∷ t)

-- The calls of a request, which is at most one.
abbrev pub asked : StepRequest → List Call
asked (keeps call) = call ∷ []
asked (drops call) = call ∷ []
asked (refuses e) = []

module _ (l : Libraries) where
  -- The calls of the steps, in their order.
  abbrev pub calls_of : List Step → StringMap → List Call
  calls_of [] vars = []
  calls_of (step ∷ steps) vars = asked (request_of l step vars) ++ calls_of steps vars

-- The runtime answers the call of a request without an error, or with this one; a request that only
-- refuses fails without a call.
abbrev pub Succeeds : Runtime → StepRequest → List Call → Type 0
Succeeds runtime (keeps call) t = (value : String) × (runtime t call ≡ ok value)
Succeeds runtime (drops call) t = (value : String) × (runtime t call ≡ ok value)
Succeeds runtime (refuses e) t = ⊥

abbrev pub Fails : Runtime → StepRequest → List Call → ApiErr → Type 0
Fails runtime (keeps call) t e = runtime t call ≡ fail e
Fails runtime (drops call) t e = runtime t call ≡ fail e
Fails runtime (refuses x) t e = x ≡ e

module _ (l : Libraries) (runtime : Runtime) (vars : StringMap) where
  -- Every step succeeds after the calls of those before it.
  abbrev pub Passed : List Step → List Call → Type 0
  Passed [] t = Unit
  Passed (step ∷ steps) t =
      Succeeds runtime (request_of l step vars) t
      × Passed steps (onto (asked (request_of l step vars)) t)

  -- Every step succeeds and the run has made their calls, or one of them is the first to fail, and the
  -- run has made the calls up to its own and ends with its error.
  abbrev pub Ran : List Step → List Call → Outcome StringMap × List Call → Type 0
  Ran steps t run =
      (Passed steps t
        × ((outputs : StringMap) × (run ≡ (ok outputs, onto (calls_of l steps vars) t))))
      ⊎ ((done : List Step) × (step : Step) × (left : List Step) × (e : ApiErr) × (steps
            ≡ done ++ (step ∷ left))
          × Passed done t
          × Fails runtime (request_of l step vars) (onto (calls_of l done vars) t) e
          × (run ≡ (fail e, onto (asked (request_of l step vars)) (onto (calls_of l done vars) t))))

onto-append : (a b t : List Call) → onto (a ++ b) t ≡ onto b (onto a t)
onto-append [] b t = refl
onto-append (c ∷ a) b t = onto-append a b (c ∷ t)

answered-calls :
    (runtime : Runtime) (r : StepRequest) (t : List Call)
    → (answered runtime r t).1 ≡ onto (asked r) t
unfolding answered
answered-calls runtime (refuses e) t = refl
answered-calls runtime (keeps call) t = refl
answered-calls runtime (drops call) t = refl

answered-cases :
    (runtime : Runtime) (r : StepRequest) (t : List Call)
    → (Succeeds runtime r t × ((value : String) × ((answered runtime r t).0 ≡ ok value)))
      ⊎ ((e : ApiErr) × Fails runtime r t e × ((answered runtime r t).0 ≡ fail e))
unfolding answered
answered-cases runtime (refuses e) t = inr (e, refl, refl)
answered-cases runtime (keeps call) t = elim (Outcome-cases (runtime t call)) [
  | inl (value, h) ↦ inl ((value, h), (value, h))
  | inr (e, h) ↦ inr (e, h, h)
]
answered-cases runtime (drops call) t = elim (Outcome-cases (runtime t call)) [
  | inl (value, h) ↦ inl ((value, h), ("", ap unit_of h))
  | inr (e, h) ↦ inr (e, h, ap unit_of h)
]

module _ (l : Libraries) (runtime : Runtime) (vars : StringMap) where
  failed_step :
      (step : Step) (steps : List Step) (outputs : StringMap) (t : List Call) (e : ApiErr)
      → (execute_step l runtime step vars t).0 ≡ fail e
      → run_steps l runtime vars (step ∷ steps) outputs t
        ≡ (fail e, (execute_step l runtime step vars t).1)
  unfolding run_steps
  failed_step step steps outputs t e h = rw (run_steps, h) refl

  passed_step :
      (step : Step) (steps : List Step) (outputs : StringMap) (t : List Call) (value : String)
      → (execute_step l runtime step vars t).0 ≡ ok value
      → run_steps l runtime vars (step ∷ steps) outputs t
        ≡ run_steps l runtime vars steps
            (kept_output step value outputs)
            (execute_step l runtime step vars t).1
  unfolding run_steps
  passed_step step steps outputs t value h = rw (run_steps, h) refl

  run_steps-Ran :
      (steps : List Step) (outputs : StringMap) (t : List Call)
      → Ran l runtime vars steps t (run_steps l runtime vars steps outputs t)
  unfolding run_steps execute_step
  run_steps-Ran [] outputs t = inl (tt, (outputs, refl))
  run_steps-Ran (step ∷ steps) outputs t =
      let request = request_of l step vars in
      let step_calls = answered-calls runtime request t in
      elim (answered-cases runtime request t) [
        | inr (e, fails, h) ↦ inr (
          [],
          step,
          steps,
          e,
          refl,
          tt,
          fails,
          failed_step step steps outputs t e h ∙ ap (λ u. (fail e, u)) step_calls,
        )
        | inl (good, (value, h)) ↦
            let kept = kept_output step value outputs in
            let same =
              passed_step step steps outputs t value h
              ∙ ap (run_steps l runtime vars steps kept) step_calls in
            let append = onto-append (asked request) in
            elim (run_steps-Ran steps kept (onto (asked request) t)) [
              | inl (passed, (last, f)) ↦ inl (
                (good, passed),
                (last, same ∙ f ∙ ap (λ u. (ok last, u)) (sym (append (calls_of l steps vars) t))),
              )
              | inr (done, bad, left, e, split, passed, fails, f) ↦
                  let trace = sym (append (calls_of l done vars) t) in
                  inr (
                    step ∷ done,
                    bad,
                    left,
                    e,
                    ap (λ ss. step ∷ ss) split,
                    (good, passed),
                    subst (λ u. Fails runtime (request_of l bad vars) u e) trace fails,
                    same ∙ f ∙ ap (λ u. (fail e, onto (asked (request_of l bad vars)) u)) trace,
                  )
            ]
      ]

-- Where every required parameter is given, an action asks the runtime for the calls of its steps in
-- their order, and for nothing else: either every step succeeds, all calls are made and the action
-- succeeds, or the calls end with those of the first step that fails, and the action ends with its
-- error. Where a parameter is missing it asks for nothing and fails.
pub execute-Ran :
    (l : Libraries) (runtime : Runtime) (action : ActionDefinition) (params : StringMap)
    → ((vars : StringMap) × (variables_of params action.params [] ≡ ok vars)
        × Ran l runtime vars action.steps [] (execute l (some runtime) action params []))
      ⊎ ((e : ApiErr) × (variables_of params action.params [] ≡ fail e)
          × (execute l (some runtime) action params [] ≡ (fail e, [])))
unfolding execute
execute-Ran l runtime action params = elim (Outcome-cases (variables_of params action.params [])) [
  | inl (vars, h) ↦
      let same : execute l (some runtime) action params []
          ≡ run_steps l runtime vars action.steps [] [] =
        rw (execute, h) refl in
      inl (
        vars,
        h,
        subst (Ran l runtime vars action.steps []) (sym same)
            (run_steps-Ran l runtime vars action.steps [] []),
      )
  | inr (e, h) ↦ inr (e, h, rw (execute, h) refl)
]
