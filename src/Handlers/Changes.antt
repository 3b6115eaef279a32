-- ===== src/Handlers/Changes.antt =====
-- What the handlers of game servers change, cmd/controlplane/main.go.
use minato.Prelude.{
  ◌≡◌, ◌↔◌, Memᴰ, not-Memᴰ-nil, refl, ap, ◌∙◌, ◌⊎◌, inl, inr, ℤ, pos, ltb_ℤ, String, true, false,
  Option, none, some, Option-cases, Bool-cases, List, [], ◌∷◌, ◌++◌, map, All, codes,
}
use minato.Cluster.{Outcome, ok, fail, Key}
use minato.Api.GameServer.{GameServer}
use minato.ControlPlane.Namespaces.{User, allows_namespace}
use minato.Tenant.Config.{Config}
use minato.Tenant.Provision.{Ensured, ensured, failed, panicked, ensure_namespace}
use minato.Tenant.Provision
use minato.Handlers.Model.{
  respond, servers, Call, get_server, create_server, update_server, tenant_call, World,
}
use minato.Handlers.Servers.{
  visible_servers, list_game_servers, LifecyclePatch, check_patch, patched, apply_patch,
  update_game_server_lifecycle, place_server, server_in, create_game_server,
}

-- The servers that were written by an update, newest first.
abbrev pub updated : List Call → List GameServer
updated [] = []
updated (update_server s ∷ t) = s ∷ updated t
updated (_ ∷ t) = updated t

-- The servers that were created, newest first.
abbrev pub created : List Call → List GameServer
created [] = []
created (create_server s ∷ t) = s ∷ created t
created (_ ∷ t) = created t

abbrev pub IsNatural : ℤ → Type 0
IsNatural n = ltb_ℤ n (pos 0) ≡ false

-- The server is the old one but for its lifecycle, and its idle timeout is the old one or not negative.
abbrev pub ChangesLifecycle : GameServer → GameServer → Type 0
ChangesLifecycle old new =
    (new ≡ record old { spec = record (old.spec) { lifecycle = new.spec.lifecycle } })
    × ((new.spec.lifecycle.idle_timeout_seconds ≡ old.spec.lifecycle.idle_timeout_seconds)
        ⊎ IsNatural new.spec.lifecycle.idle_timeout_seconds)

checked_timeout :
    (patch : LifecyclePatch) (n : ℤ)
    → check_patch patch ≡ none
    → patch.idle_timeout_seconds ≡ some n
    → IsNatural n
unfolding check_patch
checked_timeout patch n h e = elim (Bool-cases (ltb_ℤ n (pos 0))) [
  | inr natural ↦ natural
  | inl negative ↦ absurd (cc (rw (e, negative) at h))
]

patched-ChangesLifecycle :
    (patch : LifecyclePatch) (old : GameServer)
    → check_patch patch ≡ none
    → ChangesLifecycle old (patched patch old)
unfolding patched
patched-ChangesLifecycle patch old h = (
  refl,
  elim (Option-cases patch.idle_timeout_seconds) [
    | inl e ↦ inl (rw e refl)
    | inr (n, e) ↦ inr (rw e (checked_timeout patch n h e))
  ],
)

module _ (w : World) (user : Option User) where
  apply_patch-updated :
      (k : Key) (patch : LifecyclePatch) (old : GameServer)
      → w.server [] k ≡ ok old
      → check_patch patch ≡ none
      → All (ChangesLifecycle old) (updated (apply_patch w user k patch []).1)
  unfolding apply_patch
  apply_patch-updated k patch old found h =
      elim (Option-cases (w.write (get_server k ∷ []) (update_server (patched patch old)))) [
        | inl e ↦ rw (apply_patch, found, e) (patched-ChangesLifecycle patch old h, tt)
        | inr (x, e) ↦ rw (apply_patch, found, e) (patched-ChangesLifecycle patch old h, tt)
      ]

  -- Whatever the body of a request, UpdateGameServerLifecycle writes a server only as it was read, but
  -- for its lifecycle, whose idle timeout is the old one or not negative.
  pub updated-update_game_server_lifecycle :
      (k : Key) (body : Outcome LifecyclePatch) (old : GameServer)
      → w.server [] k ≡ ok old
      → All (ChangesLifecycle old) (updated (update_game_server_lifecycle w user k body []).1)
  unfolding update_game_server_lifecycle
  updated-update_game_server_lifecycle k (fail e) old found = tt
  updated-update_game_server_lifecycle k (ok patch) old found =
      elim (Option-cases (check_patch patch)) [
        | inl e ↦ rw (update_game_server_lifecycle, e) (apply_patch-updated k patch old found e)
        | inr (x, e) ↦ rw (update_game_server_lifecycle, e) tt
      ]

  created_by_tenant :
      (calls : List minato.Tenant.Provision.Call) → created (map tenant_call calls ++ []) ≡ []
  created_by_tenant [] = refl
  created_by_tenant (c ∷ calls) = created_by_tenant calls

  -- The server stands in the namespace, which is there and provisioned.
  abbrev pub IsPlaced : Config → String → GameServer → Type 0
  IsPlaced cfg namespace s =
      (s.metadata.namespace ≡ namespace)
      × ((ensure_namespace (w.tenant []) (codes namespace) cfg []).0 ≡ ensured)

  placed :
      (cfg : Config) (namespace : String) (s : GameServer) (r : Ensured)
      (calls : List minato.Tenant.Provision.Call)
      → (ensure_namespace (w.tenant []) (codes namespace) cfg []).0 ≡ r
      → All
          (IsPlaced cfg namespace)
          (created (place_server w user (server_in namespace s) r (map tenant_call calls ++ [])).1)
  unfolding place_server
  placed cfg namespace s (failed x) calls e = rw (created_by_tenant calls) tt
  placed cfg namespace s panicked calls e = rw (created_by_tenant calls) tt
  placed cfg namespace s ensured calls e = ((refl, e), rw (created_by_tenant calls) tt)

  -- Whatever namespace the body of a request names, CreateGameServer creates a server only in the
  -- namespace of the path, and only after EnsureNamespace has succeeded for it.
  pub created-create_game_server :
      (cfg : Config) (namespace : String) (body : Outcome GameServer)
      → All (IsPlaced cfg namespace) (created (create_game_server w user cfg namespace body []).1)
  unfolding create_game_server
  created-create_game_server cfg namespace (fail e) = tt
  created-create_game_server cfg namespace (ok s) =
      let r = ensure_namespace (w.tenant []) (codes namespace) cfg [] in
      placed cfg namespace s r.0 r.1 refl

-- What a user sees of the listed servers are those in the namespaces that the user may access.
visible_servers-Memᴰ :
    (u : User) (gs : GameServer) (list : List GameServer)
    → Memᴰ gs (visible_servers (some u) list)
      ↔ (Memᴰ gs list × (allows_namespace u (codes gs.metadata.namespace) ≡ true))
unfolding visible_servers
visible_servers-Memᴰ u gs [] = ((λ m. absurd (not-Memᴰ-nil m)), λ (m, h). absurd (not-Memᴰ-nil m))
visible_servers-Memᴰ u gs (x ∷ list) =
    let (sound, complete) = visible_servers-Memᴰ u gs list in
    elim (Bool-cases (allows_namespace u (codes x.metadata.namespace))) [
      | inr unseen ↦ rw unseen (
        (λ m. let (n, h) = sound m in (Memᴰ.tail n, h)),
        λ (m, h). elim m [
          | Memᴰ.head e ↦
              absurd (cc (unseen, h, ap (λ s. allows_namespace u (codes s.metadata.namespace)) e))
          | Memᴰ.tail n ↦ complete (n, h)
        ],
      )
      | inl seen ↦ rw seen (
        (λ m. elim m [
          | Memᴰ.head e ↦
              (Memᴰ.head e, ap (λ s. allows_namespace u (codes s.metadata.namespace)) e ∙ seen)
          | Memᴰ.tail n ↦ let (k, h) = sound n in (Memᴰ.tail k, h)
        ]),
        λ (m, h). elim m [ Memᴰ.head e ↦ Memᴰ.head e | Memᴰ.tail n ↦ Memᴰ.tail (complete (n, h)) ],
      )
    ]

-- ListGameServers shows a user exactly the listed servers whose namespace the user may access.
pub list_game_servers-shown :
    (w : World) (u : User) (list : List GameServer) (gs : GameServer)
    → w.servers [] ≡ ok list
    → (shown : List GameServer) × ((list_game_servers w (some u) []).0
        ≡ respond 200 (servers shown))
      × (Memᴰ gs shown ↔ (Memᴰ gs list × (allows_namespace u (codes gs.metadata.namespace) ≡ true)))
unfolding list_game_servers
list_game_servers-shown w u list gs h =
    (visible_servers (some u) list, rw (list_game_servers, h) refl, visible_servers-Memᴰ u gs list)
