-- ===== src/Sdk/Convert.antt =====
-- The conversions between the types of the client and the generated ones, sdk/controlplane/client.go.
-- An `int` of the generated types has 64 bits, so a conversion to int32 keeps the lowest 32.
use minato.Prelude.{
  zero, ◌-◌, ◌%◌, ℤ, pos, negsuc, sub_ℕ, ltb, ◌||◌, not, is_none, String, Bool, true, false, Option,
  none, some, List, [], map, if◌then◌else◌, str_eq,
}
use minato.Sdk.Types.{
  SdkObjectMeta, SdkSnapshotRef, SdkStorage, SdkLifecycle, SdkGameServerSpec, SdkEndpoint,
  SdkGameServerStatus, SdkGameServer, GenObjectMeta, GenSnapshotRef, GenStorage, GenLifecycle,
  GenGameServerSpec, GenEndpoint, GenGameServerStatus, GenGameServer,
}

-- The conversion `int32(n)`.
unfoldable pub int32_of : ℤ → ℤ
int32_of (pos n) =
    if ltb (n % 4294967296) 2147483648
    then pos (n % 4294967296)
    else sub_ℕ (n % 4294967296) 4294967296
int32_of (negsuc n) =
    if ltb (n % 4294967296) 2147483648
    then negsuc (n % 4294967296)
    else pos (4294967295 - n % 4294967296)

unfoldable pub deref : Option String → String
deref none = ""
deref (some s) = s

unfoldable pub ptr_or_nil : String → Option String
ptr_or_nil s = if str_eq s "" then none else some s

-- `if p != nil { out = int32(*p) }` on a zero field, and the same for a bool.
unfoldable pub int_or_zero : Option ℤ → ℤ
unfolding int32_of
int_or_zero none = pos 0
int_or_zero (some n) = int32_of n

unfoldable pub or_false : Option Bool → Bool
or_false none = false
or_false (some b) = b

abbrev pub no_meta : SdkObjectMeta
no_meta = record { name = ""; namespace = ""; labels = none }

abbrev pub no_storage : SdkStorage
no_storage = record { size = ""; storage_class = ""; snapshot_ref = none }

abbrev pub no_lifecycle : SdkLifecycle
no_lifecycle = record { idle_timeout_seconds = pos 0; auto_start = false }

abbrev pub no_spec : SdkGameServerSpec
no_spec = record {
  profile = "";
  env = none;
  storage = no_storage;
  lifecycle = no_lifecycle;
  load_balancer_ip = "";
}

abbrev pub no_status : SdkGameServerStatus
no_status = record {
  state = "";
  agent_version = "";
  players = pos 0;
  player_capacity = pos 0;
  endpoints = [];
}

abbrev pub to_gen_ref : SdkSnapshotRef → GenSnapshotRef
to_gen_ref r = record { name = some r.name; namespace = ptr_or_nil r.namespace }

abbrev pub option_map : {A B : Type 0} → (A → B) → Option A → Option B
option_map f none = none
option_map f (some a) = some (f a)

unfoldable pub to_gen_storage : SdkStorage → Option GenStorage
unfolding ptr_or_nil
to_gen_storage s =
    if not (str_eq s.size "") || (not (str_eq s.storage_class "") || not (is_none s.snapshot_ref))
    then some (record {
      size = ptr_or_nil s.size;
      snapshot_ref = option_map to_gen_ref s.snapshot_ref;
      storage_class = ptr_or_nil s.storage_class;
    })
    else none

abbrev pub is_zero : ℤ → Bool
is_zero (pos zero) = true
is_zero _ = false

unfoldable pub to_gen_lifecycle : SdkLifecycle → Option GenLifecycle
to_gen_lifecycle l =
    if l.auto_start || not (is_zero l.idle_timeout_seconds)
    then some (record {
      auto_start = some l.auto_start;
      idle_timeout_seconds = some l.idle_timeout_seconds;
    })
    else none

unfoldable pub to_gen_game_server : SdkGameServer → GenGameServer
unfolding ptr_or_nil to_gen_storage to_gen_lifecycle
to_gen_game_server gs = record {
  api_version = ptr_or_nil gs.api_version;
  kind = ptr_or_nil gs.kind;
  metadata = some (record {
    labels = gs.metadata.labels;
    name = some gs.metadata.name;
    namespace = ptr_or_nil gs.metadata.namespace;
  });
  spec = some (record {
    env = gs.spec.env;
    lifecycle = to_gen_lifecycle gs.spec.lifecycle;
    load_balancer_ip = ptr_or_nil gs.spec.load_balancer_ip;
    profile = some gs.spec.profile;
    storage = to_gen_storage gs.spec.storage;
  });
  status = none;
}

unfoldable pub from_gen_meta : Option GenObjectMeta → SdkObjectMeta
unfolding deref
from_gen_meta none = no_meta
from_gen_meta (some m) = record {
  name = deref m.name;
  namespace = deref m.namespace;
  labels = m.labels;
}

abbrev pub from_gen_ref : GenSnapshotRef → SdkSnapshotRef
from_gen_ref r = record { name = deref r.name; namespace = deref r.namespace }

unfoldable pub from_gen_storage : Option GenStorage → SdkStorage
unfolding deref
from_gen_storage none = no_storage
from_gen_storage (some s) = record {
  size = deref s.size;
  storage_class = deref s.storage_class;
  snapshot_ref = option_map from_gen_ref s.snapshot_ref;
}

unfoldable pub from_gen_lifecycle : Option GenLifecycle → SdkLifecycle
unfolding int_or_zero or_false
from_gen_lifecycle none = no_lifecycle
from_gen_lifecycle (some l) = record {
  idle_timeout_seconds = int_or_zero l.idle_timeout_seconds;
  auto_start = or_false l.auto_start;
}

unfoldable pub from_gen_spec : Option GenGameServerSpec → SdkGameServerSpec
unfolding deref from_gen_storage from_gen_lifecycle
from_gen_spec none = no_spec
from_gen_spec (some s) = record {
  profile = deref s.profile;
  env = s.env;
  storage = from_gen_storage s.storage;
  lifecycle = from_gen_lifecycle s.lifecycle;
  load_balancer_ip = deref s.load_balancer_ip;
}

unfoldable pub from_gen_endpoint : GenEndpoint → SdkEndpoint
unfolding deref int_or_zero
from_gen_endpoint e = record {
  name = deref e.name;
  address = deref e.address;
  port = int_or_zero e.port;
}

abbrev pub or_nil {ℓ} : {A : Type ℓ} → Option (List A) → List A
or_nil none = []
or_nil (some l) = l

unfoldable pub from_gen_status : Option GenGameServerStatus → SdkGameServerStatus
unfolding deref int_or_zero from_gen_endpoint
from_gen_status none = no_status
from_gen_status (some s) = record {
  state = deref s.state;
  agent_version = deref s.agent_version;
  players = int_or_zero s.players;
  player_capacity = int_or_zero s.player_capacity;
  endpoints = map from_gen_endpoint (or_nil s.endpoints);
}

-- `none` is a nil pointer.
unfoldable pub from_gen_game_server : Option GenGameServer → SdkGameServer
unfolding deref from_gen_meta from_gen_spec from_gen_status
from_gen_game_server none = record {
  api_version = "";
  kind = "";
  metadata = no_meta;
  spec = no_spec;
  status = no_status;
}
from_gen_game_server (some gs) = record {
  api_version = deref gs.api_version;
  kind = deref gs.kind;
  metadata = from_gen_meta gs.metadata;
  spec = from_gen_spec gs.spec;
  status = from_gen_status gs.status;
}
