-- ===== src/Webhook/GameServer.antt =====
-- The validation of game servers, internal/webhook/gameserver_webhook.go. The answer of the API server
-- for the profile is a parameter.
use minato.Prelude.{Option, none, some, if◌then◌else◌, String, ◌⧺◌, quote, str_eq}
use minato.Cluster.{message, Outcome, ok, fail}
use minato.Api.GameServer.{GameServer, SnapshotRef}
use minato.Api.GameProfile.{GameProfile}
use minato.Webhook.GameProfile.{or_else, required}

unfoldable pub validate_snapshot_ref : Option SnapshotRef → Option String
validate_snapshot_ref none = none
validate_snapshot_ref (some ref) =
    if str_eq ref.name ""
    then some "spec.storage.snapshotRef.name is required when snapshotRef is set"
    else none

unfoldable pub validate_profile_ref : (String → Outcome GameProfile) → String → Option String
validate_profile_ref get name = elim (get name) [
  | fail e ↦ some ("spec.profile " ⧺ quote name ⧺ " not found: " ⧺ message e)
  | ok profile ↦ none
]

unfoldable pub validate_game_server : (String → Outcome GameProfile) → GameServer → Option String
unfolding validate_profile_ref validate_snapshot_ref
validate_game_server get server = or_else (required server.spec.profile "spec.profile") (
    or_else (validate_profile_ref get server.spec.profile)
      (validate_snapshot_ref server.spec.storage.snapshot_ref))
