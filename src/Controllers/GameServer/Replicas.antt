-- ===== src/Controllers/GameServer/Replicas.antt =====
-- How many replicas GameServerReconciler applies for a server.
use minato.Prelude.{
  ◌⊎◌, ◌≡◌, sym, subst, inl, inr, ℤ, pos, Option, none, some, List, [], ◌∷◌, arith, All,
  Option-cases, Bool-cases, if◌then◌else◌, ◌==◌,
}
use minato.Cluster.{ok, Key, Outcome-cases, ApiErr, M, Reconciled}
use minato.Api.GameServer.{GameServer, auto_start_enabled}
use minato.Api.Meta.{contains_finalizer}
use minato.Api.GameProfile.{GameProfile}
use minato.Controllers.Builder.Model.{PodSpec}
use minato.Controllers.Builder.Pod.{build_game_server_pod_spec}
use minato.Controllers.GameServer.Model.{
  Call, game_server_finalizer, apply, Child, stateful_set, service, claim, Config, World,
}
use minato.Controllers.GameServer.Resources.{build_stateful_set, build_game_server_labels}
use minato.Controllers.GameServer.Monitor.{reconcile_service_monitor}
use minato.Controllers.GameServer.Steps.{
  and_then, children, wanted_set, apply_owned, apply_all, drain_if_stopping, ensure_sftp,
  set_profile_missing,
}
use minato.Controllers.GameServer.Loop.{
  observe, build, provide, ensure_secrets, sustain, put_finalizers, finalize, dispatch, reconcile,
}
use minato.Controllers.GameServer.Quiet.{
  applied, ensure_secrets-quiet, ensure_sftp-quiet, monitor-quiet, drain-quiet, observe-quiet,
  finalize-quiet,
}

-- One replica, or none where the server's autoStart is off.
abbrev pub replicas_for : GameServer → ℤ
replicas_for server = if auto_start_enabled server.spec.lifecycle then pos 1 else pos 0

module _ (w : World) (config : Config) where
  abbrev IsWanted : GameServer → Child → Type 0
  IsWanted server (stateful_set s) = s.replicas ≡ some (replicas_for server)
  IsWanted server (service s) = Unit
  IsWanted server (claim c) = Unit

  -- The sets applied so far have the replicas wanted for the server.
  abbrev Agree : GameServer → List Call → Type 0
  Agree server t = All (λ s. s.replicas ≡ some (replicas_for server)) (applied t)

  quiet-Agree :
      (server : GameServer) (t t' : List Call)
      → applied t' ≡ applied t
      → Agree server t
      → Agree server t'
  quiet-Agree server t t' e h =
      subst (λ l. All (λ s. s.replicas ≡ some (replicas_for server)) l) (sym e) h

  apply_owned-Agree :
      (server : GameServer) (child : Child) (t : List Call)
      → IsWanted server child
      → Agree server t
      → Agree server (apply_owned w config server child t).1
  unfolding apply_owned
  apply_owned-Agree server (stateful_set s) t wanted h = elim (Option-cases (w.own server s.name)) [
    | inl e ↦ subst (Agree server) (sym (asked e)) (wanted, h)
    | inr (x, e) ↦ subst (Agree server) (sym (refused e)) h
  ]
    where
      asked :
          w.own server s.name ≡ none
          → (apply_owned w config server (stateful_set s) t).1 ≡ apply (stateful_set s) ∷ t
      asked e = ground arith

      refused :
          {x : ApiErr}
          → w.own server s.name ≡ some x
          → (apply_owned w config server (stateful_set s) t).1 ≡ t
      refused e = ground arith
  apply_owned-Agree server (service s) t wanted h =
      quiet-Agree server t (apply_owned w config server (service s) t).1 (ground arith) h
  apply_owned-Agree server (claim c) t wanted h =
      quiet-Agree server t (apply_owned w config server (claim c) t).1 (ground arith) h

  apply_all-cases :
      (server : GameServer) (child : Child) (rest : List Child) (t : List Call)
      → let after = (apply_owned w config server child t).1 in
        (apply_all w config server (child ∷ rest) t ≡ apply_all w config server rest after)
        ⊎ ((e : ApiErr) × (apply_all w config server (child ∷ rest) t ≡ (some e, after)))
  unfolding apply_all
  apply_all-cases server child rest t =
      elim (Option-cases (apply_owned w config server child t).0) [
        | inl e ↦ inl (ground arith)
        | inr (x, e) ↦ inr (x, ground arith)
      ]

  apply_all-Agree :
      (server : GameServer) (cs : List Child) (t : List Call)
      → All (IsWanted server) cs
      → Agree server t
      → Agree server (apply_all w config server cs t).1
  apply_all-Agree server [] t wanted h = unfold apply_all in h
  apply_all-Agree server (c ∷ cs) t wanted h =
      let first = apply_owned-Agree server c t wanted.0 h in
      elim (apply_all-cases server c cs t) [
        | inl e ↦ subst (λ r. Agree server r.1) (sym e) (apply_all-Agree server cs _ wanted.1 first)
        | inr (x, e) ↦ subst (λ r. Agree server r.1) (sym e) first
      ]

  children-IsWanted :
      (server : GameServer) (profile : GameProfile) (pod : PodSpec)
      → All (IsWanted server) (children w config server profile pod)
  unfolding children build_stateful_set
  children-IsWanted server profile pod = (wanted, (tt, (tt, (tt, (tt, tt)))))
    where
      wanted :
          (wanted_set server pod (build_game_server_labels server profile)).replicas
          ≡ some (replicas_for server)
      wanted = ground arith

  -- A program that keeps the agreement.
  abbrev Preserves : {A : Type 0} → GameServer → M Call A → Type 0
  Preserves server m = (t : List Call) → Agree server t → Agree server (m t).1

  and_then-Preserves :
      (server : GameServer) (step : M Call (Option ApiErr)) (rest : M Call Reconciled)
      → Preserves server step
      → Preserves server rest
      → Preserves server (and_then step rest)
  and_then-Preserves server step rest first next t h = go (step t) (first t h)
    where
      go :
          (r : Option ApiErr × List Call)
          → Agree server r.1
          → Agree server (and_then (λ t'. r) rest t).1
      go (none, t') k = next t' k
      go (some e, t') k = k

  quiet-Preserves :
      {A : Type 0} (server : GameServer) (m : M Call A)
      → ((t : List Call) → applied (m t).1 ≡ applied t)
      → Preserves server m
  quiet-Preserves server m q t h = quiet-Agree server t (m t).1 (q t) h

  build-Preserves :
      (server : GameServer) (profile : GameProfile) (pod : PodSpec)
      → Preserves server (build w config server profile pod)
  unfolding build
  build-Preserves server profile pod =
      let sftp = ensure_sftp w config server profile in
      let drained = drain_if_stopping w config server in
      let applies = apply_all w config server (children w config server profile pod) in
      let watched = observe w config server profile in
      let labels = build_game_server_labels server profile in
      let monitored = reconcile_service_monitor w config server profile labels in
      let last = and_then monitored watched in
      and_then-Preserves server sftp (and_then drained (and_then applies last))
        (quiet-Preserves server sftp (ensure_sftp-quiet w config server profile))
        (and_then-Preserves server drained (and_then applies last)
          (quiet-Preserves server drained (drain-quiet w config server))
          (and_then-Preserves server applies last
            (λ t h. apply_all-Agree server _ t (children-IsWanted server profile pod) h)
            (and_then-Preserves server monitored watched
              (quiet-Preserves server monitored (monitor-quiet w config server profile labels))
              (quiet-Preserves server watched (observe-quiet w config server profile)))))

  provide-Preserves :
      (server : GameServer) (profile : GameProfile)
      → Preserves server (provide w config server profile)
  unfolding provide set_profile_missing
  provide-Preserves server profile t h =
      elim (Outcome-cases (build_game_server_pod_spec profile server config.image_pull_secrets)) [
        | inl (pod, e) ↦ rw (e, provide) (build-Preserves server profile pod t h)
        | inr (x, e) ↦ rw (e, provide) h
      ]

  sustain-Preserves : (server : GameServer) → Preserves server (sustain w config server)
  unfolding sustain set_profile_missing
  sustain-Preserves server t h = elim (Outcome-cases (w.profile t server.spec.profile)) [
    | inl (profile, e) ↦
        rw (e, sustain)
          (and_then-Preserves server (ensure_secrets w config server)
            (provide w config server profile)
            (quiet-Preserves server (ensure_secrets w config server)
              (ensure_secrets-quiet w config server))
            (provide-Preserves server profile) _ h)
    | inr (ApiErr.not_found m, e) ↦ rw (e, sustain) h
    | inr (ApiErr.already_exists m, e) ↦ rw (e, sustain) h
    | inr (ApiErr.other m, e) ↦ rw (e, sustain) h
  ]

  dispatch-Preserves : (server : GameServer) → Preserves server (dispatch w config server)
  unfolding dispatch put_finalizers
  dispatch-Preserves server t h = elim (Bool-cases (server.metadata.deletion_timestamp == 0)) [
    | inl live ↦
        elim (Bool-cases (contains_finalizer game_server_finalizer server.metadata.finalizers)) [
          | inl held ↦ rw (live, held, dispatch) (sustain-Preserves server t h)
          | inr free ↦ rw (live, free, dispatch) h
        ]
    | inr gone ↦
        elim (Bool-cases (contains_finalizer game_server_finalizer server.metadata.finalizers)) [
          | inl held ↦
              rw (gone, held, dispatch)
                (quiet-Agree server t (finalize w config server t).1
                  (finalize-quiet w config server t) h)
          | inr free ↦ rw (gone, free, dispatch) h
        ]
  ]

  -- Every stateful set that a reconcile applies has one replica if the server that was read starts by
  -- itself, and none if it does not. So a set that the idle check has scaled to zero is applied with
  -- one replica again by the next reconcile.
  pub reconcile-applied :
      (req : Key) {server : GameServer}
      → w.server [] req ≡ ok server
      → All (λ s. s.replicas ≡ some (replicas_for server)) (applied (reconcile w config req []).1)
  unfolding reconcile
  reconcile-applied req {server} got = rw (got, reconcile) (dispatch-Preserves server _ tt)
