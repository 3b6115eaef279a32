-- ===== src/Examples/Builder.antt =====
-- The pod of a server whose profile opts into SFTP.
use minato.Prelude.{◌≡◌, refl, true, false, some, [], ◌∷◌}
use minato.Api.Meta.{lookup}
use minato.Api.GameServer.{GameServer}
use minato.Api.GameProfile.{GameProfile}
use minato.Controllers.Builder.Environment.{build_game_env}
use minato.Controllers.Builder.Pod.{assembled_pod, build_game_server_pod_spec}
use minato.Controllers.Builder.Merged.{first_some, last_value, lookup-build_game_env}
use minato.Controllers.Builder.Mounts.{IsMounted, build_game_server_pod_spec-IsMounted}
use minato.Controllers.GameServer.Resources.{build_stateful_set}
use minato.Examples.Data.{survival, minecraft}

abbrev modded : GameProfile
modded = record minecraft {
  spec = record minecraft.spec {
    environment =
        (record { key = "EULA"; default = "FALSE"; required = true; description = "" })
        ∷ (record { key = "MOTD"; default = ""; required = false; description = "" })
        ∷ [];
    capabilities =
        some (record { files = true; sftp = true; backup = false; restore_from_snapshot = false });
  };
}

abbrev accepting : GameServer
accepting = record survival { spec = record survival.spec { env = ("EULA", "TRUE") ∷ [] } }

lookup-build_game_env_example :
    lookup "EULA" (build_game_env modded accepting)
    ≡ first_some (last_value "EULA" (("EULA", "TRUE") ∷ [])) (some "FALSE")
lookup-build_game_env_example = lookup-build_game_env modded accepting "EULA"

build_game_server_pod_spec-IsMounted_example :
    IsMounted modded accepting
      (build_stateful_set accepting (assembled_pod modded accepting ("registry" ∷ [])) []).pod
unfolding build_game_server_pod_spec
build_game_server_pod_spec-IsMounted_example =
    build_game_server_pod_spec-IsMounted modded accepting ("registry" ∷ []) []
      (assembled_pod modded accepting ("registry" ∷ [])) refl
