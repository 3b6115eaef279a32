-- ===== src/Controllers/GameServer/Secrets.antt =====
-- The secrets of a game server: `ensureImagePullSecrets` of
-- internal/controllers/gameserver_controller.go and `ensureSFTPSecret` of sftp.go.
use minato.Prelude.{String, ◌||◌, Option, none, some, List, [], ◌∷◌, str_eq, ◌⧺◌, if◌then◌else◌}
use minato.Cluster.{Outcome, ok, fail, ApiErr, message, key, M, ◌>>=◌, pure, ask}
use minato.Api.Meta.{label}
use minato.Api.GameServer.{GameServer}
use minato.Api.GameProfile.{GameProfile}
use minato.Controllers.Builder.Sftp.{sftp_secret_name, sftp_users_json}
use minato.Controllers.GameServer.Model.{
  Secret, Config, Call, get_secret, create_secret, update_secret, World, replicated_from,
}

-- An error is as good as none if the object exists already.
abbrev pub unless_exists : Option ApiErr → Option ApiErr
unless_exists (some (ApiErr.already_exists m)) = none
unless_exists e = e

abbrev pub wrapped : String → Option ApiErr → Option ApiErr
wrapped prefix none = none
wrapped prefix (some e) = some (ApiErr.other (prefix ⧺ message e))

module _ (w : World) (config : Config) where
  unfoldable pub replica : String → String → Secret → Secret
  replica name namespace src = record {
    name = name;
    namespace = namespace;
    labels = (replicated_from, config.operator_namespace) ∷ [];
    type = src.type;
    content = src.content;
  }

  -- What is done for a secret, by what is found in the target namespace.
  unfoldable pub replicate_found :
      String → String → Secret → Outcome Secret → M Call (Option ApiErr)
  unfolding replica label
  replicate_found name namespace src (fail (ApiErr.not_found m)) = do
    err ←
        ask (create_secret (replica name namespace src))
          (λ t. w.create t (replica name namespace src))
    pure (wrapped ("replicate pull secret to " ⧺ namespace ⧺ ": ") (unless_exists err))
  replicate_found name namespace src (fail e) = pure (some e)
  replicate_found name namespace src (ok dst) =
      let fresh : Secret = record dst { type = src.type; content = src.content } in
      if str_eq (label replicated_from dst.labels) "" then pure none else (do
        err ← ask (update_secret fresh) (λ t. w.refresh t fresh)
        pure (wrapped ("refresh pull secret in " ⧺ namespace ⧺ ": ") err))

  unfoldable pub replicate : String → String → M Call (Option ApiErr)
  replicate namespace name = do
    let src_key = key name config.operator_namespace
    let dst_key = key name namespace
    src ← ask (get_secret src_key) (λ t. w.secret t src_key)
    elim src [
      | fail e ↦ pure (
          some (
            ApiErr.other
              ("get pull secret " ⧺ config.operator_namespace ⧺ "/" ⧺ name ⧺ ": " ⧺ message e)))
      | ok found ↦ do
        dst ← ask (get_secret dst_key) (λ t. w.secret t dst_key)
        replicate_found name namespace found dst
    ]

  unfoldable pub replicate_all : String → List String → M Call (Option ApiErr)
  replicate_all namespace [] t = (none, t)
  replicate_all namespace (name ∷ names) t =
      let (err, t') = replicate namespace name t in
      elim err [ none ↦ replicate_all namespace names t' | some e ↦ (some e, t') ]

  unfoldable pub ensure_image_pull_secrets : String → M Call (Option ApiErr)
  ensure_image_pull_secrets namespace =
      if str_eq config.operator_namespace "" || str_eq namespace config.operator_namespace
      then pure none
      else replicate_all namespace config.image_pull_secrets

  unfoldable pub sftp_secret : GameServer → String → String → Secret
  sftp_secret server password users = record {
    name = sftp_secret_name server.metadata.name;
    namespace = server.metadata.namespace;
    labels =
        ("app.kubernetes.io/name", "minato") ∷ ("minato.io/gameserver", server.metadata.name) ∷ [];
    type = "Opaque";
    content = ("username", "minato") ∷ ("password", password) ∷ ("users.json", users) ∷ [];
  }

  -- From the missing secret on.
  unfoldable pub create_sftp_secret : GameServer → Secret → M Call (Option ApiErr)
  create_sftp_secret server secret = elim (w.own server secret.name) [
    | some e ↦ pure (some e)
    | none ↦ do
      err ← ask (create_secret secret) (λ t. w.create t secret)
      pure (
          wrapped ("create sftp secret " ⧺ secret.namespace ⧺ "/" ⧺ secret.name ⧺ ": ")
            (unless_exists err))
  ]

  abbrev fallible :
      String → Outcome String → (String → M Call (Option ApiErr)) → M Call (Option ApiErr)
  fallible prefix (fail e) next = pure (wrapped prefix (some e))
  fallible prefix (ok s) next = next s

  unfoldable pub new_sftp_secret : GameServer → GameProfile → M Call (Option ApiErr)
  unfolding sftp_secret
  new_sftp_secret server profile t =
      fallible "generate sftp password: " (w.password t)
        (λ password. fallible "hash sftp password: " (w.hash password) (λ hashed.
          create_sftp_secret server
            (sftp_secret server password (sftp_users_json profile.spec.storage.mount_path hashed))))
        t

  unfoldable pub ensure_sftp_secret : GameServer → GameProfile → M Call (Option ApiErr)
  ensure_sftp_secret server profile = do
    let k = key (sftp_secret_name server.metadata.name) server.metadata.namespace
    found ← ask (get_secret k) (λ t. w.secret t k)
    elim found [
      | ok s ↦ pure none
      | fail (ApiErr.not_found m) ↦ new_sftp_secret server profile
      | fail e ↦ pure (some e)
    ]
