-- ===== src/Agent/Catalog.antt =====
-- The catalog of the declared actions, sdk/agent/actions/catalog.go. The decoders are parameters.
use minato.Prelude.{
  ◌==◌, String, Bool, false, ◌||◌, Option, none, some, List, [], ◌∷◌, if◌then◌else◌, str_eq, Bytes,
  trim_space, is_nil,
}
use minato.Cluster.{Outcome, ok, fail, ApiErr}
use minato.Api.Meta.{StringMap}
use minato.Api.ActionExecution.{ActionParamSchema}

pub record ParseConfig : Type 0 where
  pub type : String
  pub regex : String
  pub fields : List String
  pub mapping : StringMap

pub record Step : Type 0 where
  pub name : String
  pub type : String
  pub inputs : StringMap
  pub parse : Option ParseConfig

pub record ActionDefinition : Type 0 where
  pub name : String
  pub description : String
  pub params : List (String × ActionParamSchema)
  pub steps : List Step

pub record Catalog : Type 0 where
  pub actions : List ActionDefinition

-- JSON and YAML, with unknown fields refused and an empty document accepted.
pub record Decoders : Type 0 where
  pub json : Bytes → Outcome Catalog
  pub yaml : Bytes → Outcome Catalog

abbrev looks_like_json : Bytes → Bool
looks_like_json [] = false
looks_like_json (c ∷ s) = c == b'{' || c == b'['

unfoldable pub load_catalog_from_bytes : Decoders → Bytes → Outcome Catalog
load_catalog_from_bytes d content =
    if is_nil (trim_space content)
    then fail (ApiErr.other "empty content")
    else if looks_like_json (trim_space content)
    then d.json content
    else d.yaml content

unfoldable pub load_catalog_from_file :
    Decoders → (String → Outcome Bytes) → String → Outcome Catalog
unfolding load_catalog_from_bytes
load_catalog_from_file d read path =
    if str_eq path ""
    then fail (ApiErr.other "path is required")
    else elim (read path) [ fail e ↦ fail e | ok content ↦ load_catalog_from_bytes d content ]

unfoldable pub find_in : List ActionDefinition → String → Option ActionDefinition
find_in [] name = none
find_in (a ∷ actions) name =
    let rest = find_in actions name in if str_eq a.name name then some a else rest

unfoldable pub find_action : Catalog → String → Option ActionDefinition
unfolding find_in
find_action c name = find_in c.actions name
