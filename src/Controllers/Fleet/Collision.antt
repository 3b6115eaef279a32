-- ===== src/Controllers/Fleet/Collision.antt =====
-- A scale-up after a scale-down, by the names that gameserverfleet_controller.go gives its servers.
use minato.Prelude.{
  ℕ, ◌<◌, ◌≡◌, sym, subst, ◌⊎◌, inl, inr, true, some, List, [], ◌∷◌, ◌++◌, map, length, Memᴰ,
  of_len, ltb_ℤ,
}
use minato.Cluster.{ApiErr, Key, ok, errored, message, is_already_exists}
use minato.Api.GameServer.{GameServer}
use minato.Api.Fleet.{GameServerFleet}
use minato.Controllers.Fleet.Model.{Call, create_server, World}
use minato.Controllers.Fleet.Template.{build_game_server}
use minato.Controllers.Fleet.Loop.{server_key, reconcile_servers}
use minato.Controllers.Fleet.Replicas.{reconcile_servers_stops}

-- The key of a fleet's server of an index.
abbrev pub key_at : GameServerFleet → ℕ → Key
key_at fleet i = server_key (build_game_server fleet i)

-- The server knows the key of this server already, and refuses to create it.
abbrev pub IsTaken : World → List Call → GameServer → Type 0
IsTaken w t server = (e : ApiErr) × (w.create t server ≡ some e) × (is_already_exists e ≡ true)

split_keys :
    (chosen kept : List GameServer) (k : Key)
    → Memᴰ k (map server_key (chosen ++ kept))
    → Memᴰ k (map server_key chosen) ⊎ Memᴰ k (map server_key kept)
split_keys [] kept k m = inr m
split_keys (s ∷ chosen) kept k (Memᴰ.head e) = inl (Memᴰ.head e)
split_keys (s ∷ chosen) kept k (Memᴰ.tail m) = elim (split_keys chosen kept k m) [
  | inl c ↦ inl (Memᴰ.tail c)
  | inr n ↦ inr n
]

module _ (w : World) (fleet : GameServerFleet) where
  -- A fleet has had its servers of all indices below a count, and a scale-down has deleted some of
  -- them and kept the others, the one whose index is the number of those kept among them. Then, where
  -- the API server refuses to create a server whose key is taken and the owner reference leaves the
  -- key as it is, every reconcile of the scaled-up fleet fails at its first creation, which is
  -- refused.
  pub scale_up_collides :
      (count : ℕ) (chosen kept : List GameServer) (own : GameServer → GameServer) (t : List Call)
      → ((i : ℕ) → i < count → Memᴰ (key_at fleet i) (map server_key (chosen ++ kept)))
      → length kept < count
      → ¬ Memᴰ (key_at fleet (length kept)) (map server_key chosen)
      → ltb_ℤ (of_len (length kept)) fleet.spec.replicas ≡ true
      → ((s : GameServer) → w.own fleet s ≡ ok (own s))
      → ((s : GameServer) → server_key (own s) ≡ server_key s)
      → ((s : GameServer) → Memᴰ (server_key s) (map server_key kept) → IsTaken w t s)
      → (e : ApiErr) × (w.create t (own (build_game_server fleet (length kept))) ≡ some e)
        × (reconcile_servers w fleet kept t ≡ (
          errored (message e),
          create_server (own (build_game_server fleet (length kept))) ∷ t,
        ))
  scale_up_collides count chosen kept own t all fewer spared up owned named unique =
      let next = own (build_game_server fleet (length kept)) in
      let left : Memᴰ (key_at fleet (length kept)) (map server_key kept) =
        elim (split_keys chosen kept _ (all (length kept) fewer)) [
          | inl c ↦ absurd (spared c)
          | inr m ↦ m
        ] in
      let (e, taken, kind) = unique next (
        subst (λ k. Memᴰ k (map server_key kept))
          (sym (named (build_game_server fleet (length kept)))) left) in
      (e, taken, reconcile_servers_stops w fleet kept t e next up (owned _) taken)
