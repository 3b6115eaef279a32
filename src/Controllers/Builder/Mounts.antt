-- ===== src/Controllers/Builder/Mounts.antt =====
-- What the containers of a server's pod mount, internal/controllers/builder and buildStatefulSet of
-- internal/controllers/gameserver_controller.go.
use minato.Prelude.{
  ◌≡◌, refl, ap, inl, inr, ◌⊎◌, String, true, false, Bool-cases, List, str_eq, All, Any, subst,
}
use minato.Cluster.{ok, fail}
use minato.Api.Meta.{StringMap}
use minato.Api.GameServer.{GameServer}
use minato.Api.GameProfile.{GameProfile}
use minato.Controllers.Builder.Model.{
  Container, Volume, claim_volume, PodSpec, data_mount, data_volume_name,
}
use minato.Controllers.Builder.Sftp.{build_sftp_container, apply_sftp_sidecar}
use minato.Controllers.Builder.Pod.{
  build_data_volume_mounts, game_container, agent_container, plain_pod, assembled_pod,
  build_game_server_pod_spec,
}
use minato.Controllers.GameServer.Ports.{sftp_enabled}
use minato.Controllers.GameServer.Resources.{build_stateful_set}

-- Each volume that the container mounts is one of the volumes.
abbrev pub MountsOnly : List Volume → Container → Type 0
MountsOnly volumes c = All (λ m. Any (λ v. v.name ≡ m.name) volumes) c.volume_mounts

-- The container mounts the volume `data` at the path of the profile.
abbrev pub MountsWorld : GameProfile → Container → Type 0
MountsWorld profile c = Any (λ m. m ≡ data_mount profile) c.volume_mounts

abbrev pub IsWorld : GameServer → Volume → Type 0
IsWorld server v = (v.name ≡ data_volume_name) × (v.source ≡ claim_volume server.metadata.name)

-- The volumes of the set's pod are enough for its containers, one of them is the claim of the server's
-- world, and every container mounts the world.
abbrev pub IsMounted : GameProfile → GameServer → PodSpec → Type 0
IsMounted profile server pod =
    All (MountsOnly pod.volumes) pod.containers
    × Any (IsWorld server) pod.volumes
    × All (MountsWorld profile) pod.containers

assembled_pod-IsMounted :
    (profile : GameProfile) (server : GameServer) (secrets : List String) (labels : StringMap)
    → IsMounted profile server
        (build_stateful_set server (assembled_pod profile server secrets) labels).pod
unfolding assembled_pod plain_pod game_container agent_container build_data_volume_mounts
    apply_sftp_sidecar build_sftp_container build_stateful_set
assembled_pod-IsMounted profile server secrets labels = elim (Bool-cases (sftp_enabled profile)) [
  | inl on ↦
      rw (assembled_pod, on)
        (
          (
            (inr (inr (inl refl)), tt),
            (
              (inr (inr (inl refl)), tt),
              ((inr (inr (inl refl)), (inl refl, (inr (inl refl), tt))), tt),
            ),
          ),
          inr (inr (inl (refl, refl))),
          (inl refl, (inl refl, (inl refl, tt))),
        )
  | inr off ↦
      rw (assembled_pod, off)
        (((inl refl, tt), ((inl refl, tt), tt)), inl (refl, refl), (inl refl, (inl refl, tt)))
]

-- A pod that was built and made the pod of the server's stateful set has a volume for each mount of
-- its containers, among its volumes is the claim of the server's world, and each of its containers,
-- the SFTP sidecar too, mounts the world at the path of the profile.
pub build_game_server_pod_spec-IsMounted :
    (profile : GameProfile) (server : GameServer) (secrets : List String) (labels : StringMap)
    (pod : PodSpec)
    → build_game_server_pod_spec profile server secrets ≡ ok pod
    → IsMounted profile server (build_stateful_set server pod labels).pod
unfolding build_game_server_pod_spec
build_game_server_pod_spec-IsMounted profile server secrets labels pod h =
    subst (λ p. IsMounted profile server (build_stateful_set server p labels).pod)
      (built (Bool-cases (str_eq profile.spec.storage.mount_path ""))
        (Bool-cases (str_eq profile.spec.image ""))
        (Bool-cases (str_eq profile.spec.agent.image "")))
      (assembled_pod-IsMounted profile server secrets labels)
  where
    ok_injective : (p : PodSpec) → ok p ≡ ok pod → p ≡ pod
    ok_injective p e = ap (λ r. elim r [ fail x ↦ p | ok q ↦ q ]) e

    built :
        (str_eq profile.spec.storage.mount_path "" ≡ true)
          ⊎ (str_eq profile.spec.storage.mount_path "" ≡ false)
        → (str_eq profile.spec.image "" ≡ true) ⊎ (str_eq profile.spec.image "" ≡ false)
        → (str_eq profile.spec.agent.image "" ≡ true) ⊎ (str_eq profile.spec.agent.image "" ≡ false)
        → assembled_pod profile server secrets ≡ pod
    built (inl a) image agent = absurd (cc (rw a at h))
    built (inr a) (inl b) agent = absurd (cc (rw (a, b) at h))
    built (inr a) (inr b) (inl c) = absurd (cc (rw (a, b, c) at h))
    built (inr a) (inr b) (inr c) =
        ok_injective (assembled_pod profile server secrets) (rw (a, b, c) at h)
