-- ===== src/Handlers/Keys.antt =====
-- The handlers of API keys, cmd/controlplane/main.go.
use minato.Prelude.{
  ℕ, String, Bool, true, false, not, Option, none, some, List, if◌then◌else◌, str_eq, ltb, Bytes,
  is_nil,
}
use minato.Cluster.{Outcome, ok, fail, M, ◌>>=◌, ◌>>◌, pure, ask, tell}
use minato.ControlPlane.Namespaces.{User}
use minato.ControlPlane.Keys.{list_keys, generate_key, delete_key}
use minato.Handlers.Model.{
  failure, refused, empty, keys, created_key, Response, respond, Call, list_api_keys,
  generate_api_key, delete_api_key, log_action, World, write_error, bad_request,
}

-- The decoded request.
pub record KeyRequest : Type 0 where
  pub name : Bytes
  pub role : String
  pub namespaces : List Bytes
  pub expires_at : Option ℕ

abbrev is_past : ℕ → Option ℕ → Bool
is_past now none = false
is_past now (some t) = not (ltb now t)

-- The role of the user where none is asked for.
unfoldable pub role_for : User → KeyRequest → String
role_for u req = if str_eq req.role "" then u.role else req.role

module _ (w : World) (user : Option User) where
  unfoldable pub list_user_keys : M Call Response
  unfolding list_keys
  list_user_keys = do
    listed ← ask list_api_keys (λ t. list_keys (w.store t))
    pure (elim listed [ none ↦ respond 500 refused | some entries ↦ respond 200 (keys entries) ])

  -- From the checked request on.
  unfoldable pub issue_key : User → KeyRequest → M Call Response
  unfolding generate_key role_for
  issue_key u req = do
    made ← ask (generate_api_key req.name (role_for u req) req.namespaces req.expires_at) (λ t.
        generate_key (w.store t) req.name u.id u.username (role_for u req) req.namespaces
          req.expires_at)
    elim made [
      | none ↦ pure (respond 500 refused)
      | some entry ↦ do
        tell (log_action "apikey.created" entry.name (some u))
        pure (respond 201 (created_key entry))
    ]

  unfoldable pub create_api_key : Outcome KeyRequest → M Call Response
  unfolding issue_key
  create_api_key body = elim user [
    | none ↦ pure (respond 401 (failure "unauthorized"))
    | some u ↦ elim body [
      | fail e ↦ pure (write_error 400 e)
      | ok req ↦ λ t.
          if is_nil req.name
          then (bad_request "name is required", t)
          else if is_past (w.clock t) req.expires_at
          then (bad_request "expiresAt must be in the future", t)
          else issue_key u req t
    ]
  ]

  unfoldable pub delete_user_key : Bytes → M Call Response
  unfolding delete_key
  delete_user_key name = do
    deleted ← ask (delete_api_key name) (λ t. delete_key (w.store t) name)
    elim deleted [
      | false ↦ pure (respond 404 refused)
      | true ↦ do tell (log_action "apikey.deleted" name user); pure (respond 204 empty)
    ]
