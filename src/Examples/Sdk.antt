-- ===== src/Examples/Sdk.antt =====
-- The client of the control plane at a server to create and at a page of a proxy.
use minato.Prelude.{◌≡◌, ◌≢◌, ◌↔◌, pos, false, some, none, [], ◌∷◌, List, String, arith}
use minato.Cluster.{Outcome, ok}
use minato.Sdk.Types.{SdkGameServer, GenGameServer}
use minato.Sdk.Convert.{no_status, to_gen_game_server, from_gen_game_server}
use minato.Sdk.Client.{Reply, value, panicked, sdk_list_game_servers, sdk_get_game_server}
use minato.Sdk.Trips.{from_gen_game_server-to_gen_game_server}
use minato.Sdk.Answers.{IsUndecoded, blank_replies}

abbrev creative : SdkGameServer
creative = record {
  api_version = "operator.minato.io/v1";
  kind = "GameServer";
  metadata = record { name = "creative"; namespace = ""; labels = none };
  spec = record {
    profile = "minecraft";
    env = some (("MODE", "creative") ∷ []);
    storage = record {
      size = "10Gi";
      storage_class = "";
      snapshot_ref = some (record { name = "nightly"; namespace = "" });
    };
    lifecycle = record { idle_timeout_seconds = pos 600; auto_start = false };
    load_balancer_ip = "";
  };
  status = record no_status { players = pos 3 };
}

from_gen_game_server-to_gen_game_server_example :
    from_gen_game_server (some (to_gen_game_server creative))
    ≡ record creative { status = no_status }
from_gen_game_server-to_gen_game_server_example =
    from_gen_game_server-to_gen_game_server creative (omega arith)

abbrev page : {A : Type 0} → Outcome (Reply A)
page = ok (record { status = 200; body = "<html>"; decoded = none })

abbrev no_error : String → String
no_error body = ""

blank_replies_example :
    ((sdk_list_game_servers no_error page ≡ panicked)
      ↔ IsUndecoded {A = List GenGameServer} 200 page)
    × (sdk_get_game_server no_error page ≢ panicked)
    × (IsUndecoded {A = GenGameServer} 200 page
        → sdk_get_game_server no_error page ≡ value (from_gen_game_server none))
blank_replies_example = blank_replies no_error page page
