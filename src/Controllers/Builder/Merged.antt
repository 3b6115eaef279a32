-- ===== src/Controllers/Builder/Merged.antt =====
-- The value of a variable in the environment of the game, `buildGameEnv` of
-- internal/controllers/builder/podspec.go.
use minato.Prelude.{
  ◌≡◌, refl, sym, ap, ◌∙◌, inl, inr, ◌⊎◌, String, Bool, true, false, Option, none, some, Bool-cases,
  List, [], ◌∷◌, if◌then◌else◌, str_eq, eq_iff, arith,
}
use minato.Api.Meta.{StringMap, lookup, insert, copy_into, lookup-insert, label}
use minato.Api.GameServer.{GameServer}
use minato.Api.GameProfile.{GameProfile, EnvironmentSpec}
use minato.Controllers.Fleet.Selection.{insert_sorted, sort_slice}
use minato.Controllers.Builder.Environment.{
  has_default, default_values, merged_values, keys, text_before, variables, build_game_env,
}

-- The first that is there.
abbrev pub first_some : Option String → Option String → Option String
first_some none b = b
first_some (some v) b = some v

-- The last value that a list of pairs gives to the key.
abbrev pub last_value : String → StringMap → Option String
last_value key [] = none
last_value key (entry ∷ entries) =
    first_some (last_value key entries) (if str_eq entry.0 key then some entry.1 else none)

-- The last default of the key among the variables that are required or have a default.
abbrev pub last_default : String → List EnvironmentSpec → Option String
last_default key [] = none
last_default key (item ∷ items) =
    first_some (last_default key items)
      (if has_default item then (if str_eq item.key key then some item.default else none) else none)

first_some_assoc :
    (a b c : Option String) → first_some (first_some a b) c ≡ first_some a (first_some b c)
first_some_assoc none b c = refl
first_some_assoc (some v) b c = refl

lookup-copy_into :
    (key : String) (dst src : StringMap)
    → lookup key (copy_into dst src) ≡ first_some (last_value key src) (lookup key dst)
unfolding copy_into
lookup-copy_into key dst [] = refl
lookup-copy_into key dst (entry ∷ src) =
    lookup-copy_into key (insert entry.0 entry.1 dst) src
    ∙ ap (first_some (last_value key src))
        (lookup-insert entry.0 key entry.1 dst ∙ step (Bool-cases (str_eq entry.0 key)))
    ∙ sym (
        first_some_assoc (last_value key src) (if str_eq entry.0 key then some entry.1 else none)
          (lookup key dst))
  where
    step :
        (str_eq entry.0 key ≡ true) ⊎ (str_eq entry.0 key ≡ false)
        → (if str_eq entry.0 key then some entry.1 else lookup key dst)
          ≡ first_some (if str_eq entry.0 key then some entry.1 else none) (lookup key dst)
    step (inl e) = rw e refl
    step (inr n) = rw n refl

lookup-default_values :
    (key : String) (items : List EnvironmentSpec) (values : StringMap)
    → lookup key (default_values items values)
      ≡ first_some (last_default key items) (lookup key values)
unfolding default_values
lookup-default_values key [] values = refl
lookup-default_values key (item ∷ items) values =
    lookup-default_values key items _
    ∙ ap (first_some (last_default key items))
        (step (Bool-cases (has_default item)) (Bool-cases (str_eq item.key key)))
    ∙ sym (first_some_assoc (last_default key items) _ (lookup key values))
  where
    step :
        (has_default item ≡ true) ⊎ (has_default item ≡ false)
        → (str_eq item.key key ≡ true) ⊎ (str_eq item.key key ≡ false)
        → lookup key (if has_default item then insert item.key item.default values else values)
          ≡ first_some
              (if has_default item
                then (if str_eq item.key key then some item.default else none)
                else none)
              (lookup key values)
    step (inr n) same = rw n refl
    step (inl e) (inl s) = rw (e, s) (lookup-insert item.key key item.default values ∙ rw s refl)
    step (inl e) (inr s) = rw (e, s) (lookup-insert item.key key item.default values ∙ rw s refl)

module _ (values : StringMap) (key : String) where
  variables-insert_sorted :
      (less : String → String → Bool) (k : String) (ks : List String)
      → lookup key (variables values (insert_sorted less k ks))
        ≡ lookup key (variables values (k ∷ ks))
  unfolding insert_sorted variables lookup
  variables-insert_sorted less k [] = refl
  variables-insert_sorted less k (j ∷ ks) = elim (Bool-cases (less j k)) [
    | inr n ↦ rw n refl
    | inl e ↦ rw e (grind (arith, eq_iff j key, eq_iff k key, variables-insert_sorted less k ks))
  ]

  variables-sort_slice :
      (less : String → String → Bool) (ks : List String)
      → lookup key (variables values (sort_slice less ks)) ≡ lookup key (variables values ks)
  unfolding sort_slice variables lookup
  variables-sort_slice less [] = refl
  variables-sort_slice less (k ∷ ks) =
      variables-insert_sorted less k (sort_slice less ks)
      ∙ ap (λ o. if str_eq k key then some (label k values) else o) (variables-sort_slice less ks)

  -- Over the keys of a map, the variables are what `value` says.
  variables-keys :
      (entries : StringMap)
      → lookup key (variables values (keys entries))
        ≡ elim (lookup key entries) [ none ↦ none | some v ↦ some (label key values) ]
  unfolding variables keys lookup
  variables-keys [] = refl
  variables-keys (entry ∷ entries) = elim (Bool-cases (str_eq entry.0 key)) [
    | inl e ↦ rw e (ap (λ k. some (label k values)) ((eq_iff entry.0 key).0 e))
    | inr n ↦ rw n (variables-keys entries)
  ]

  label_of : (v : String) → lookup key values ≡ some v → label key values ≡ v
  unfolding label
  label_of v e = ap (λ o. elim o [ none ↦ "" | some x ↦ x ]) e

  label_there :
      elim (lookup key values) [ none ↦ none | some v ↦ some (label key values) ]
      ≡ lookup key values
  label_there = there (lookup key values) refl
    where
      there :
          (o : Option String)
          → lookup key values ≡ o
          → elim o [ none ↦ none | some v ↦ some (label key values) ] ≡ o
      there none e = refl
      there (some v) e = ap some (label_of v e)

-- A variable of the game's container has the value that the server gives it, or else the last default
-- of the profile that is required or not empty; it is missing where neither sets it.
pub lookup-build_game_env :
    (profile : GameProfile) (server : GameServer) (key : String)
    → lookup key (build_game_env profile server)
      ≡ first_some (last_value key server.spec.env) (last_default key profile.spec.environment)
unfolding build_game_env merged_values lookup
lookup-build_game_env profile server key =
    let values = merged_values profile server in
    variables-sort_slice values key text_before (keys values)
    ∙ variables-keys values key values
    ∙ label_there values key
    ∙ lookup-copy_into key (default_values profile.spec.environment []) server.spec.env
    ∙ ap (first_some (last_value key server.spec.env)) (
        lookup-default_values key profile.spec.environment []
        ∙ right (last_default key profile.spec.environment))
  where
    right : (o : Option String) → first_some o (lookup key []) ≡ o
    right none = refl
    right (some v) = refl
