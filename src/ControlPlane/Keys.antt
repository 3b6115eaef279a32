-- ===== src/ControlPlane/Keys.antt =====
-- API keys and the Secrets that hold them, internal/controlplane/auth/storage.go. A Secret is what the
-- code reads of it: the metadata are the entry that `json.Unmarshal` makes of their text, and the
-- expiry is what `time.Parse` makes of its text. Times are nanoseconds.
use minato.Prelude.{
  ℕ, ◌*◌, ◌/◌, Bool, false, Option, none, some, List, [], ◌∷◌, ◌++◌, if◌then◌else◌, ltb, String,
  codes, Bytes, bytes_eq, is_nil, join, is_none, cut_prefix, or_empty_bytes,
}
use minato.Cluster.{ApiErr, Outcome, ok, fail}
use minato.ControlPlane.Namespaces.{comma, parse_namespaces}

pub record ApiKeyEntry : Type 0 where
  pub name : Bytes
  pub key_id : Bytes
  pub user_id : String
  pub username : String
  pub role : String
  pub created_at : ℕ
  pub namespaces : List Bytes
  pub expires_at : Option ℕ

-- The text of `expiresAt`: missing or empty, a time, or neither.
pub data Expiry : Type 0 where
  unset : Expiry
  instant : ℕ → Expiry
  malformed : Expiry

pub record Secret : Type 0 where
  pub name : Bytes
  pub created_by : String
  pub key : Option Bytes
  pub metadata : Option ApiKeyEntry
  pub namespaces : Bytes
  pub expires_at : Expiry

abbrev pub api_key_secret_prefix : Bytes
api_key_secret_prefix = codes "minato-apikey-"

-- A time as RFC 3339 prints it, to the second.
abbrev pub to_seconds : ℕ → ℕ
to_seconds t = t / 1000000000 * 1000000000

unfoldable pub format_expiry : Option ℕ → Expiry
format_expiry none = unset
format_expiry (some t) = instant (to_seconds t)

unfoldable pub to_secret : ApiKeyEntry → Secret
unfolding format_expiry
to_secret entry = record {
  name = api_key_secret_prefix ++ entry.name;
  created_by = entry.username;
  key = some entry.key_id;
  metadata = some entry;
  namespaces = join comma entry.namespaces;
  expires_at = format_expiry entry.expires_at;
}

-- `strings.TrimPrefix`.
unfoldable pub trim_prefix : Bytes → Bytes → Bytes
trim_prefix s p = elim (cut_prefix s p) [ none ↦ s | some rest ↦ rest ]

abbrev pub zero_entry : ApiKeyEntry
zero_entry = record {
  name = [];
  key_id = [];
  user_id = "";
  username = "";
  role = "";
  created_at = 0;
  namespaces = [];
  expires_at = none;
}

abbrev or_zero : Option ApiKeyEntry → ApiKeyEntry
or_zero none = zero_entry
or_zero (some entry) = entry

unfoldable pub with_key : Option Bytes → ApiKeyEntry → ApiKeyEntry
with_key none entry = entry
with_key (some key) entry = if is_nil entry.key_id then record entry { key_id = key } else entry

unfoldable pub with_name : Bytes → ApiKeyEntry → ApiKeyEntry
unfolding trim_prefix
with_name secret_name entry =
    if is_nil entry.name
    then record entry { name = trim_prefix secret_name api_key_secret_prefix }
    else entry

unfoldable pub with_namespaces : Bytes → ApiKeyEntry → ApiKeyEntry
with_namespaces v entry =
    if is_nil v then entry else record entry { namespaces = parse_namespaces v }

unfoldable pub with_expiry : Expiry → ApiKeyEntry → ApiKeyEntry
with_expiry unset entry = entry
with_expiry (instant t) entry = record entry { expires_at = some t }
with_expiry malformed entry = entry

-- The metadata first, then what the other fields of the Secret say.
unfoldable pub from_secret : Secret → ApiKeyEntry
unfolding with_key with_name with_namespaces with_expiry
from_secret secret = with_expiry secret.expires_at (
    with_namespaces secret.namespaces
      (with_name secret.name (with_key secret.key (or_zero secret.metadata))))

-- `time.Now().After(*e.ExpiresAt)`.
unfoldable pub expired : ℕ → ApiKeyEntry → Bool
expired now entry = elim entry.expires_at [ none ↦ false | some t ↦ ltb t now ]

-- The loop of GetKey over the labelled Secrets; `none` is ErrUnauthorized.
unfoldable pub find_key : ℕ → List Secret → Bytes → Option ApiKeyEntry
unfolding expired
find_key now [] value = none
find_key now (secret ∷ secrets) value =
    let rest = find_key now secrets value in
    if bytes_eq (or_empty_bytes secret.key) value
    then (if expired now (from_secret secret) then none else some (from_secret secret))
    else rest

unfoldable pub hidden : List Secret → List ApiKeyEntry
hidden [] = []
hidden (secret ∷ secrets) = record (from_secret secret) { key_id = [] } ∷ hidden secrets

-- The Secrets with the label, as the API server lists them, and the calls that change them.
pub record KeyStore : Type 0 where
  pub secrets : Outcome (List Secret)
  pub now : ℕ
  pub create : Secret → Option ApiErr
  pub delete : Bytes → Option ApiErr
  pub random_key : Option Bytes

unfoldable pub get_key : KeyStore → Bytes → Option ApiKeyEntry
unfolding find_key
get_key store value = elim store.secrets [
  | fail e ↦ none
  | ok secrets ↦ find_key store.now secrets value
]

unfoldable pub list_keys : KeyStore → Option (List ApiKeyEntry)
unfolding hidden
list_keys store = elim store.secrets [ fail e ↦ none | ok secrets ↦ some (hidden secrets) ]

-- The new entry, or no key where there is no randomness or the Secret is not created.
unfoldable pub generate_key :
    KeyStore → Bytes → String → String → String → List Bytes → Option ℕ → Option ApiKeyEntry
unfolding to_secret
generate_key store name user_id username role namespaces expires_at = elim store.random_key [
  | none ↦ none
  | some value ↦
      let entry : ApiKeyEntry = record {
        name = name;
        key_id = value;
        user_id = user_id;
        username = username;
        role = role;
        created_at = store.now;
        namespaces = namespaces;
        expires_at = expires_at;
      } in
      elim (store.create (to_secret entry)) [ none ↦ some entry | some e ↦ none ]
]

unfoldable pub delete_key : KeyStore → Bytes → Bool
delete_key store name = is_none (store.delete (api_key_secret_prefix ++ name))
