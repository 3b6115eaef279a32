-- ===== src/Examples/Agent.antt =====
-- An action that saves a world and then says so.
use minato.Prelude.{◌≡◌, ◌⊎◌, true, none, some, [], ◌∷◌}
use minato.Cluster.{ApiErr, ok, fail}
use minato.Api.Meta.{StringMap}
use minato.Agent.Catalog.{ActionDefinition}
use minato.Agent.Steps.{Libraries, Runtime, variables_of, execute}
use minato.Agent.Order.{Ran, execute-Ran}

abbrev plain : Libraries
plain = record {
  template = λ input vars. some input;
  parse_duration = λ s. fail (ApiErr.other "no duration");
}

abbrev quiet : Runtime
quiet calls call = ok "done"

abbrev save : ActionDefinition
save = record {
  name = "save";
  description = "";
  params =
      ("world", record { type = "string"; required = true; description = ""; default = "" }) ∷ [];
  steps =
      (record { name = "save"; type = "RCON"; inputs = ("command", "save-all") ∷ []; parse = none })
      ∷ (record { name = ""; type = "rcon"; inputs = ("command", "say saved") ∷ []; parse = none })
      ∷ [];
}

execute-Ran_example :
    ((vars : StringMap) × (variables_of (("world", "w") ∷ []) save.params [] ≡ ok vars)
      × Ran plain quiet vars save.steps []
          (execute plain (some quiet) save (("world", "w") ∷ []) []))
    ⊎ ((e : ApiErr) × (variables_of (("world", "w") ∷ []) save.params [] ≡ fail e)
        × (execute plain (some quiet) save (("world", "w") ∷ []) [] ≡ (fail e, [])))
execute-Ran_example = execute-Ran plain quiet save (("world", "w") ∷ [])
