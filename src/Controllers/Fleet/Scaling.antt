-- ===== src/Controllers/Fleet/Scaling.antt =====
-- The deletion loop of a fleet over every behaviour of the API server and of the agents.
use minato.Prelude.{
  ◌≡◌, refl, ◌∙◌, Option-cases, ◌⊎◌, inl, inr, String, some, List, [], ◌∷◌, map, Memᴰ, arith,
}
use minato.Cluster.{ApiErr, Key}
use minato.Api.GameServer.{GameServer}
use minato.Api.Fleet.{GameServerFleet}
use minato.Controllers.Fleet.Model.{Call, create_server, delete_server, World}
use minato.Controllers.Fleet.Loop.{server_key, drain_server, delete_one, delete_all, update_all}

-- The names of the servers created and the keys of those deleted, newest first.
abbrev pub created : List Call → List String
created [] = []
created (create_server s ∷ t) = s.metadata.name ∷ created t
created (_ ∷ t) = created t

abbrev pub deleted : List Call → List Key
deleted [] = []
deleted (delete_server k ∷ t) = k ∷ deleted t
deleted (_ ∷ t) = deleted t

module _ (w : World) where
  drain_server-quiet :
      (fleet : GameServerFleet) (server : GameServer) (t : List Call)
      → (created (drain_server w fleet server t).1 ≡ created t)
        × (deleted (drain_server w fleet server t).1 ≡ deleted t)
  unfolding drain_server
  drain_server-quiet fleet server t = (ground arith, ground arith)

  delete_one-quiet :
      (k : Key) (t : List Call)
      → (created (delete_one w k t).1 ≡ created t) × (deleted (delete_one w k t).1 ≡ k ∷ deleted t)
  unfolding delete_one
  delete_one-quiet k t = (refl, refl)

  -- The calls after the first round of the loop, and whether it goes on.
  after : GameServerFleet → GameServer → List Call → List Call
  after fleet server t = (delete_one w (server_key server) (drain_server w fleet server t).1).1

  after-quiet :
      (fleet : GameServerFleet) (server : GameServer) (t : List Call)
      → (created (after fleet server t) ≡ created t)
        × (deleted (after fleet server t) ≡ server_key server ∷ deleted t)
  unfolding after
  after-quiet fleet server t = ground (
    arith,
    drain_server-quiet fleet server t,
    delete_one-quiet (server_key server) (drain_server w fleet server t).1,
  )

  delete_all-cases :
      (fleet : GameServerFleet) (server : GameServer) (rest : List GameServer) (t : List Call)
      → (delete_all w fleet (server ∷ rest) t ≡ delete_all w fleet rest (after fleet server t))
        ⊎ ((e : ApiErr) × (delete_all w fleet (server ∷ rest) t ≡ (some e, after fleet server t)))
  unfolding delete_all after
  delete_all-cases fleet server rest t =
      elim (Option-cases (delete_one w (server_key server) (drain_server w fleet server t).1).0) [
        | inl e ↦ inl (ground arith)
        | inr (x, e) ↦ inr (x, ground arith)
      ]

  pub delete_all-created :
      (fleet : GameServerFleet) (chosen : List GameServer) (t : List Call)
      → created (delete_all w fleet chosen t).1 ≡ created t
  delete_all-created fleet [] t = unfold delete_all in refl
  delete_all-created fleet (server ∷ rest) t = elim (delete_all-cases fleet server rest t) [
    | inl e ↦
        rw e (delete_all-created fleet rest (after fleet server t) ∙ (after-quiet fleet server t).0)
    | inr (x, e) ↦ rw e (after-quiet fleet server t).0
  ]

  -- Whatever the loop deletes is one of the chosen servers.
  pub delete_all_only :
      (fleet : GameServerFleet) (chosen : List GameServer) (t : List Call) (k : Key)
      → Memᴰ k (deleted (delete_all w fleet chosen t).1)
      → Memᴰ k (map server_key chosen) ⊎ Memᴰ k (deleted t)
  delete_all_only fleet [] t k m = inr (unfold delete_all in m)
  delete_all_only fleet (server ∷ rest) t k m = elim (delete_all-cases fleet server rest t) [
    | inl e ↦ elim (delete_all_only fleet rest (after fleet server t) k (rw e at m)) [
      | inl later ↦ inl (Memᴰ.tail later)
      | inr now ↦ first now
    ]
    | inr (x, e) ↦ first (rw e at m)
  ]
    where
      split :
          Memᴰ k (server_key server ∷ deleted t)
          → Memᴰ k (map server_key (server ∷ rest)) ⊎ Memᴰ k (deleted t)
      split (Memᴰ.head e) = inl (Memᴰ.head e)
      split (Memᴰ.tail n) = inr n

      first :
          Memᴰ k (deleted (after fleet server t))
          → Memᴰ k (map server_key (server ∷ rest)) ⊎ Memᴰ k (deleted t)
      first n = split (rw (after-quiet fleet server t).1 at n)

  pub update_all-quiet :
      (fleet : GameServerFleet) (servers : List GameServer) (t : List Call)
      → (created (update_all w fleet servers t).1 ≡ created t)
        × (deleted (update_all w fleet servers t).1 ≡ deleted t)
  unfolding update_all
  update_all-quiet fleet [] t = (refl, refl)
  update_all-quiet fleet (server ∷ rest) t = update_all-quiet fleet rest _
