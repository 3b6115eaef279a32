-- ===== src/Controllers/Builder/Environment.antt =====
-- `buildGameEnv` of internal/controllers/builder/podspec.go. The map of the values and the set of the
-- keys change together: the keys are those of the map.
use minato.Prelude.{String, Bool, not, ◌||◌, List, [], ◌∷◌, if◌then◌else◌, str_eq, codes}
use minato.Api.Meta.{StringMap, insert, copy_into, label}
use minato.Api.GameServer.{GameServer}
use minato.Api.GameProfile.{GameProfile, EnvironmentSpec}
use minato.Controllers.Fleet.Selection.{text_lt, sort_slice}

abbrev pub has_default : EnvironmentSpec → Bool
has_default item = item.required || not (str_eq item.default "")

-- The loop over the environment of the profile.
unfoldable pub default_values : List EnvironmentSpec → StringMap → StringMap
default_values [] values = values
default_values (item ∷ items) values =
    default_values items (if has_default item then insert item.key item.default values else values)

-- The values of the server replace those of the profile.
unfoldable pub merged_values : GameProfile → GameServer → StringMap
unfolding default_values copy_into
merged_values profile server =
    copy_into (default_values profile.spec.environment []) server.spec.env

unfoldable pub keys : StringMap → List String
keys [] = []
keys (entry ∷ entries) = entry.0 ∷ keys entries

-- The order of `sort.Strings`.
unfoldable pub text_before : String → String → Bool
unfolding text_lt
text_before a b = text_lt (codes a) (codes b)

-- The second loop, over the keys in order.
unfoldable pub variables : StringMap → List String → StringMap
unfolding label
variables values [] = []
variables values (key ∷ ks) = (key, label key values) ∷ variables values ks

unfoldable pub build_game_env : GameProfile → GameServer → StringMap
unfolding merged_values keys text_before sort_slice variables
build_game_env profile server =
    let values = merged_values profile server in
    variables values (sort_slice text_before (keys values))
