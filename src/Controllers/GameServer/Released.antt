-- ===== src/Controllers/GameServer/Released.antt =====
-- What GameServerReconciler deletes before it releases a server, and which secrets it writes.
use minato.Prelude.{
  ◌≡◌, refl, ◌≢◌, ◌∙◌, ap, sym, subst, ◌⊎◌, inl, inr, String, none, some, List, [], ◌∷◌, arith, All,
  ◌||◌, false, Option, Option-cases, Bool-cases, str_eq, eq_iff,
}
use minato.Cluster.{
  ApiErr, IsGone, IsGone-cases, is_not_found, Outcome, Outcome-cases, key, ok, fail,
}
use minato.Api.Meta.{contains_finalizer, remove_finalizer, remove_finalizer-contains, label}
use minato.Api.GameServer.{GameServer}
use minato.Controllers.GameServer.Model.{
  Call, update_server, delete, update_secret, Resource, Secret, Config, World,
  game_server_finalizer, replicated_from,
}
use minato.Controllers.GameServer.Secrets.{
  replicate_found, replicate, replicate_all, ensure_image_pull_secrets,
}
use minato.Controllers.GameServer.Steps.{resources_of, delete_all, cleanup_resources}
use minato.Controllers.Deletions.{deletions, AreGone, IsHeld, Deletes, loop-Deletes}
use minato.Controllers.GameServer.Loop.{with_finalizers, put_finalizers, finalize}

-- The secrets that were changed, newest first.
abbrev pub changed : List Call → List Secret
changed [] = []
changed (update_secret s ∷ t) = s ∷ changed t
changed (_ ∷ t) = changed t

module _ (w : World) (config : Config) where
  delete_all-Deletes :
      (rs : List Resource) (t : List Call) → Deletes delete w.remove rs t (delete_all w config rs t)
  unfolding delete_all
  delete_all-Deletes = loop-Deletes delete w.remove (delete_all w config) (λ t. refl) goes_on stops
    where
      goes_on :
          (r : Resource) (rs : List Resource) (t : List Call)
          → IsGone (w.remove t r)
          → delete_all w config (r ∷ rs) t ≡ delete_all w config rs (delete r ∷ t)
      goes_on r rs t gone = elim (IsGone-cases (w.remove t r) gone) [
        | inl e ↦ ground arith
        | inr (m, e) ↦ ground arith
      ]

      stops :
          (r : Resource) (rs : List Resource) (t : List Call) (e : ApiErr)
          → w.remove t r ≡ some e
          → is_not_found e ≡ false
          → delete_all w config (r ∷ rs) t ≡ (some e, delete r ∷ t)
      stops r rs t (ApiErr.not_found m) h other = absurd (cc other)
      stops r rs t (ApiErr.already_exists m) h other = ground arith
      stops r rs t (ApiErr.other m) h other = ground arith

  finalize-log :
      (server : GameServer) (t log : List Call)
      → delete_all w config (resources_of server) t ≡ (none, log)
      → (finalize w config server t).1
        ≡ update_server (
            with_finalizers server
              (remove_finalizer game_server_finalizer server.metadata.finalizers))
          ∷ log
  unfolding finalize cleanup_resources put_finalizers
  finalize-log server t log h = ground arith

  finalize-stops :
      (server : GameServer) (t log : List Call) {e : ApiErr}
      → delete_all w config (resources_of server) t ≡ (some e, log)
      → (finalize w config server t).1 ≡ log
  unfolding finalize cleanup_resources
  finalize-stops server t log h = ground arith

  -- All objects of the server are gone, and then it is written once, without its finalizer.
  abbrev pub IsFreed : GameServer → List Call → List Call → Type 0
  IsFreed server t log =
      AreGone delete w.remove (resources_of server) t
      × ((s : GameServer) × (contains_finalizer game_server_finalizer s.metadata.finalizers ≡ false)
          × (log ≡ update_server s ∷ deletions delete (resources_of server) t))

  -- The calls for a server that is being deleted: either its stateful set, its three services, its
  -- claim and its SFTP secret are deleted, each of these deletions succeeds or finds the object
  -- missing, and then the server is written without its finalizer; or one deletion is the first that
  -- fails otherwise, it is the last call, and the server is not written.
  pub finalize-released :
      (server : GameServer) (t : List Call)
      → IsFreed server t (finalize w config server t).1
        ⊎ ((e : ApiErr) × IsHeld delete w.remove
              (resources_of server)
              t
              e
              (finalize w config server t).1)
  finalize-released server t =
      ends (delete_all w config (resources_of server) t) refl
        (delete_all-Deletes (resources_of server) t)
    where
      ends :
          (result : Option ApiErr × List Call)
          → delete_all w config (resources_of server) t ≡ result
          → Deletes delete w.remove (resources_of server) t result
          → IsFreed server t (finalize w config server t).1
            ⊎ ((e : ApiErr) × IsHeld delete w.remove
                  (resources_of server)
                  t
                  e
                  (finalize w config server t).1)
      ends (none, log) same (gone, f) =
          let left = remove_finalizer game_server_finalizer server.metadata.finalizers in
          inl (
            gone,
            (
              with_finalizers server left,
              remove_finalizer-contains game_server_finalizer server.metadata.finalizers,
              finalize-log server t log same
                  ∙ ap (λ u. update_server (with_finalizers server left) ∷ u) f,
            ),
          )
      ends (some e, log) same held = inr (
        e,
        subst (IsHeld delete w.remove (resources_of server) t e)
            (sym (finalize-stops server t log same)) held,
      )

  abbrev AreManaged : List Call → Type 0
  AreManaged t = All (λ s. label replicated_from s.labels ≢ "") (changed t)

  replicate_found-AreManaged :
      (name namespace : String) (src : Secret) (dst : Outcome Secret) (t : List Call)
      → AreManaged t
      → AreManaged (replicate_found w config name namespace src dst t).1
  unfolding replicate_found
  replicate_found-AreManaged name namespace src (fail (ApiErr.not_found m)) t h = h
  replicate_found-AreManaged name namespace src (fail (ApiErr.already_exists m)) t h = h
  replicate_found-AreManaged name namespace src (fail (ApiErr.other m)) t h = h
  replicate_found-AreManaged name namespace src (ok dst) t h =
      elim (Bool-cases (str_eq (label replicated_from dst.labels) "")) [
        | inl foreign ↦ rw foreign h
        | inr managed ↦ rw managed (ground (arith, eq_iff (label replicated_from dst.labels) ""), h)
      ]

  replicate-AreManaged :
      (namespace name : String) (t : List Call)
      → AreManaged t
      → AreManaged (replicate w config namespace name t).1
  unfolding replicate
  replicate-AreManaged namespace name t h =
      elim (Outcome-cases (w.secret t (key name config.operator_namespace))) [
        | inl (src, e) ↦ rw e (replicate_found-AreManaged name namespace src _ _ h)
        | inr (x, e) ↦ rw e h
      ]

  replicate_all-cases :
      (namespace name : String) (names : List String) (t : List Call)
      → let after = (replicate w config namespace name t).1 in
        (replicate_all w config namespace (name ∷ names) t
          ≡ replicate_all w config namespace names after)
        ⊎ ((e : ApiErr) × (replicate_all w config namespace (name ∷ names) t ≡ (some e, after)))
  unfolding replicate_all
  replicate_all-cases namespace name names t =
      elim (Option-cases (replicate w config namespace name t).0) [
        | inl e ↦ inl (ground arith)
        | inr (x, e) ↦ inr (x, ground arith)
      ]

  replicate_all-AreManaged :
      (namespace : String) (names : List String) (t : List Call)
      → AreManaged t
      → AreManaged (replicate_all w config namespace names t).1
  replicate_all-AreManaged namespace [] t h = unfold replicate_all in h
  replicate_all-AreManaged namespace (name ∷ names) t h =
      let first = replicate-AreManaged namespace name t h in
      elim (replicate_all-cases namespace name names t) [
        | inl e ↦
            subst (λ r. AreManaged r.1) (sym e)
              (replicate_all-AreManaged namespace names (replicate w config namespace name t).1
                first)
        | inr (x, e) ↦ subst (λ r. AreManaged r.1) (sym e) first
      ]

  -- The replication of the pull secrets changes only secrets that carry the replicated-from label
  -- already: a secret of the user is left as it is.
  ensure_image_pull_secrets-changed :
      (namespace : String)
      → All
          (λ s. label replicated_from s.labels ≢ "")
          (changed (ensure_image_pull_secrets w config namespace []).1)
  unfolding ensure_image_pull_secrets
  ensure_image_pull_secrets-changed namespace =
      elim (Bool-cases
        (str_eq config.operator_namespace "" || str_eq namespace config.operator_namespace)) [
          | inl off ↦ rw (off, changed, ensure_image_pull_secrets) tt
          | inr on ↦
              rw (on, changed, ensure_image_pull_secrets)
                (replicate_all-AreManaged namespace config.image_pull_secrets [] tt)
        ]
