-- ===== src/Examples/Registrar.antt =====
-- A registrar whose first two registrations are refused, and whose cluster the cloud forgets once.
use minato.Prelude.{◌==◌, false, ◌||◌, none, some, [], if◌then◌else◌, pos, length}
use minato.Registrar.Settings.{RegistrarConfig}
use minato.Registrar.Loop.{World, run}
use minato.Registrar.Backoff.{IsSpaced, run-IsSpaced}
use minato.Registrar.Protocol.{AreLawful, run-AreLawful}

abbrev cloud : World
cloud = record {
  status = λ t.
      if length t == 0
      then none
      else if length t == 2
      then some 503
      else if length t == 6
      then some 404
      else if length t == 4 || length t == 7
      then some 200
      else some 204;
  is_done = λ t. false;
}

abbrev cluster : RegistrarConfig
cluster = record {
  cloud_url = "https://cloud.example";
  register_token = "t";
  name = "c1";
  region = "";
  control_plane_url = "http://minato-controlplane:8080";
  control_plane_key = "k";
  capacity_max = pos 100;
  dedicated_tenant_id = "";
  cluster_fingerprint = "";
  heartbeat_interval = pos 30000000000;
  request_timeout = pos 10000000000;
}

run-IsSpaced_example : IsSpaced cloud cluster "" 5 (run cloud cluster "" 5 3 []).1
run-IsSpaced_example = run-IsSpaced cloud cluster "" 5 3

run-AreLawful_example : AreLawful cloud none (run cloud cluster "" 5 3 []).1
run-AreLawful_example = run-AreLawful cloud cluster "" 5 3
