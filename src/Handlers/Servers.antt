-- ===== src/Handlers/Servers.antt =====
-- The handlers of game servers, cmd/controlplane/main.go.
use minato.Prelude.{
  ℕ, ℤ, pos, String, ◌⧺◌, Bool, false, ◌&&◌, Option, none, some, is_none, List, [], ◌∷◌,
  if◌then◌else◌, ltb_ℤ, codes,
}
use minato.Cluster.{ApiErr, message, Outcome, ok, fail, Key, M, ◌>>=◌, ◌>>◌, pure, ask, tell}
use minato.Api.GameServer.{GameServer}
use minato.ControlPlane.Namespaces.{User}
use minato.Tenant.Config.{Config}
use minato.Tenant.Provision.{Ensured, ensured, failed, panicked}
use minato.Handlers.Model.{
  Body, failure, empty, server, servers, Response, respond, Call, list_servers, get_server,
  create_server, update_server, delete_server, log_action, World, write_error, bad_request, may_see,
  ensured_namespace,
}
use minato.Handlers.Model

unfoldable pub visible_servers : Option User → List GameServer → List GameServer
visible_servers user [] = []
visible_servers user (gs ∷ list) =
    let rest = visible_servers user list in
    if may_see user gs.metadata.namespace then gs ∷ rest else rest

-- The decoded patch: its two fields.
pub record LifecyclePatch : Type 0 where
  pub auto_start : Option Bool
  pub idle_timeout_seconds : Option ℤ

abbrev is_negative : Option ℤ → Bool
is_negative none = false
is_negative (some n) = ltb_ℤ n (pos 0)

-- The checks of a patch; `none` is no error.
unfoldable pub check_patch : LifecyclePatch → Option String
check_patch patch =
    if is_negative patch.idle_timeout_seconds
    then some "spec.lifecycle.idleTimeoutSeconds must be >= 0"
    else if is_none patch.auto_start && is_none patch.idle_timeout_seconds
    then some
        "patch must set at least one of spec.lifecycle.autoStart or spec.lifecycle.idleTimeoutSeconds"
    else none

abbrev or_old {ℓ} : {A : Type ℓ} → Option A → A → A
or_old none old = old
or_old (some new) old = new

abbrev or_unchanged {ℓ} : {A : Type ℓ} → Option A → Option A → Option A
or_unchanged none old = old
or_unchanged (some new) old = some new

unfoldable pub patched : LifecyclePatch → GameServer → GameServer
patched patch gs = record gs {
  spec = record (gs.spec) {
    lifecycle = record {
      idle_timeout_seconds =
          or_old patch.idle_timeout_seconds gs.spec.lifecycle.idle_timeout_seconds;
      auto_start = or_unchanged patch.auto_start gs.spec.lifecycle.auto_start;
    };
  };
}

abbrev pub server_in : String → GameServer → GameServer
server_in namespace gs = record gs { metadata = record (gs.metadata) { namespace = namespace } }

module _ (w : World) (user : Option User) where
  unfoldable pub list_game_servers : M Call Response
  unfolding visible_servers
  list_game_servers = do
    listed ← ask list_servers w.servers
    pure (elim listed [
      | fail e ↦ write_error 500 e
      | ok list ↦ respond 200 (servers (visible_servers user list))
    ])

  unfoldable pub get_game_server : Key → M Call Response
  get_game_server k = do
    found ← ask (get_server k) (λ t. w.server t k)
    pure (elim found [ fail e ↦ write_error 404 e | ok gs ↦ respond 200 (server gs) ])

  abbrev stored : ℕ → GameServer → Option ApiErr → Response
  stored status gs none = respond status (server gs)
  stored status gs (some e) = write_error 500 e

  -- From the provisioned namespace on.
  unfoldable pub place_server : GameServer → Ensured → M Call Response
  place_server gs (failed e) t = (write_error 500 e, t)
  place_server gs panicked t = (minato.Handlers.Model.panicked, t)
  place_server gs ensured t =
      let err = w.write t (create_server gs) in (stored 201 gs err, create_server gs ∷ t)

  unfoldable pub create_game_server : Config → String → Outcome GameServer → M Call Response
  unfolding ensured_namespace place_server
  create_game_server cfg namespace (fail e) = pure (write_error 400 e)
  create_game_server cfg namespace (ok gs) =
      ensured_namespace w cfg namespace >>= place_server (server_in namespace gs)

  unfoldable pub delete_game_server : Key → M Call Response
  delete_game_server k = do
    err ← ask (delete_server k) (λ t. w.write t (delete_server k))
    pure (elim err [ some e ↦ write_error 500 e | none ↦ respond 204 empty ])

  -- From the checked patch on.
  unfoldable pub apply_patch : Key → LifecyclePatch → M Call Response
  unfolding patched
  apply_patch k patch = do
    found ← ask (get_server k) (λ t. w.server t k)
    elim found [
      | fail e ↦ pure (write_error 404 e)
      | ok gs ↦ do
        err ←
            ask (update_server (patched patch gs))
              (λ t. w.write t (update_server (patched patch gs)))
        elim err [
          | some e ↦ pure (write_error 500 e)
          | none ↦ do
            tell (log_action "gameserver.lifecycle-updated" (codes gs.metadata.name) user)
            pure (respond 200 (server (patched patch gs)))
        ]
    ]

  unfoldable pub update_game_server_lifecycle : Key → Outcome LifecyclePatch → M Call Response
  unfolding check_patch apply_patch
  update_game_server_lifecycle k (fail e) = pure (
      bad_request (
        "invalid patch: only spec.lifecycle.autoStart and spec.lifecycle.idleTimeoutSeconds may be set: "
        ⧺ message e))
  update_game_server_lifecycle k (ok patch) = elim (check_patch patch) [
    | some text ↦ pure (bad_request text)
    | none ↦ apply_patch k patch
  ]
