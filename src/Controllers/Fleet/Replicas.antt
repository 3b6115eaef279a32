-- ===== src/Controllers/Fleet/Replicas.antt =====
-- What one reconcile of a live fleet creates and deletes.
use minato.Prelude.{
  ℕ, zero, suc, ◌+◌, ◌-◌, ◌<◌, ℤ, pos, ◌≡◌, refl, ◌∙◌, ap, ◌⊎◌, inl, inr, String, none, some, List,
  [], ◌∷◌, map, Memᴰ, not-Memᴰ-nil, arith, length, str_eq, of_len, ltb_ℤ, ◌-ℤ◌, Option-cases,
  Bool-cases, true, false,
}
use minato.Cluster.{ApiErr, Key, ok, Reconciled, done, errored, message}
use minato.Api.GameServer.{GameServer}
use minato.Api.Fleet.{GameServerFleet}
use minato.Controllers.Fleet.Model.{Call, create_server, World}
use minato.Controllers.Fleet.Template.{build_game_server, rounds}
use minato.Controllers.Fleet.Selection.{select_servers_to_delete, servers_to_update}
use minato.Controllers.Fleet.Loop.{
  server_key, create_one, create_all, scale, delete_all, strategy_of, roll_out, update_status,
  reconcile_servers,
}
use minato.Controllers.Fleet.Scaling.{created, deleted, delete_all_only, update_all-quiet}

rounds_pos :
    (n : ℕ) (z : ℤ) → ltb_ℤ (of_len n) z ≡ true → (m : ℕ) × (rounds (z -ℤ of_len n) ≡ suc m)
rounds_pos n z lt = (rounds (z -ℤ of_len n) - 1, ground arith)

rounds-eq : (n r : ℕ) → n < r → rounds (pos r -ℤ of_len n) ≡ r - n
rounds-eq n r lt = ground arith

module _ (w : World) (fleet : GameServerFleet) where
  roll_out-quiet :
      (servers : List GameServer) (t : List Call)
      → (created (roll_out w fleet servers t).1 ≡ created t)
        × (deleted (roll_out w fleet servers t).1 ≡ deleted t)
  unfolding roll_out
  roll_out-quiet servers t = elim (Bool-cases (str_eq (strategy_of fleet) "RollingUpdate")) [
    | inl e ↦ rw e (update_all-quiet w fleet (servers_to_update fleet servers) t)
    | inr e ↦ rw e (refl, refl)
  ]

  reconcile_servers-cases :
      (servers : List GameServer) (t : List Call)
      → let scaled = scale w fleet servers (strategy_of fleet) t in
        (reconcile_servers w fleet servers t
          ≡ (done, (update_status w fleet servers (roll_out w fleet servers scaled.1).1).1))
        ⊎ ((answer : Reconciled) × (scaled.0 ≡ some answer)
            × (reconcile_servers w fleet servers t ≡ (answer, scaled.1)))
  unfolding reconcile_servers
  reconcile_servers-cases servers t =
      elim (Option-cases (scale w fleet servers (strategy_of fleet) t).0) [
        | inl e ↦ inl (ground arith)
        | inr (answer, e) ↦ inr (answer, e, ground arith)
      ]

  update_status-quiet :
      (servers : List GameServer) (t : List Call)
      → (created (update_status w fleet servers t).1 ≡ created t)
        × (deleted (update_status w fleet servers t).1 ≡ deleted t)
  unfolding update_status
  update_status-quiet servers t = (refl, refl)

  -- After the scaling step nothing is created or deleted.
  reconcile_servers-quiet :
      (servers : List GameServer) (t : List Call)
      → let t' = (reconcile_servers w fleet servers t).1 in
        let scaled = (scale w fleet servers (strategy_of fleet) t).1 in
        (created t' ≡ created scaled) × (deleted t' ≡ deleted scaled)
  reconcile_servers-quiet servers t =
      let scaled = (scale w fleet servers (strategy_of fleet) t).1 in
      let rolled = (roll_out w fleet servers scaled).1 in
      elim (reconcile_servers-cases servers t) [
        | inl e ↦ rw e (
          (update_status-quiet servers rolled).0 ∙ (roll_out-quiet servers scaled).0,
          (update_status-quiet servers rolled).1 ∙ (roll_out-quiet servers scaled).1,
        )
        | inr (answer, h, e) ↦ rw e (refl, refl)
      ]

  -- The calls of the scaling step: creations, deletions of the chosen servers, or none.
  scale-cases :
      (servers : List GameServer) (strategy : String) (t : List Call)
      → ((ltb_ℤ (of_len (length servers)) fleet.spec.replicas ≡ true)
          × ((scale w fleet servers strategy t).1
              ≡ (create_all w fleet
                  (length servers)
                  (rounds (fleet.spec.replicas -ℤ of_len (length servers)))
                  t).1))
        ⊎ ((chosen : List GameServer) × (select_servers_to_delete servers fleet.spec.replicas
                strategy
              ≡ some chosen)
            × (ltb_ℤ fleet.spec.replicas (of_len (length servers)) ≡ true)
            × ((scale w fleet servers strategy t).1 ≡ (delete_all w fleet chosen t).1))
        ⊎ ((ltb_ℤ (of_len (length servers)) fleet.spec.replicas ≡ false)
            × ((scale w fleet servers strategy t).1 ≡ t))
  unfolding scale
  scale-cases servers strategy t =
      elim (Bool-cases (ltb_ℤ (of_len (length servers)) fleet.spec.replicas)) [
        | inl lt ↦ inl (lt, rw lt)
        | inr ge ↦ elim (Bool-cases (ltb_ℤ fleet.spec.replicas (of_len (length servers)))) [
          | inl gt ↦
              elim (Option-cases (select_servers_to_delete servers fleet.spec.replicas strategy)) [
                | inl e ↦ inr (inr (ge, ground arith))
                | inr (chosen, e) ↦ inr (inl (chosen, e, gt, ground arith))
              ]
          | inr le ↦ inr (inr (ge, ground arith))
        ]
      ]

  create_one-deleted : (i : ℕ) (t : List Call) → deleted (create_one w fleet i t).1 ≡ deleted t
  unfolding create_one
  create_one-deleted i t = ground arith

  create_all-cases :
      (i n : ℕ) (t : List Call)
      → (create_all w fleet i (suc n) t ≡ create_all w fleet (suc i) n (create_one w fleet i t).1)
        ⊎ ((e : ApiErr) × ((create_one w fleet i t).0 ≡ some e)
            × (create_all w fleet i (suc n) t ≡ (some e, (create_one w fleet i t).1)))
  unfolding create_all
  create_all-cases i n t = elim (Option-cases (create_one w fleet i t).0) [
    | inl e ↦ inl (ground arith)
    | inr (x, e) ↦ inr (x, e, ground arith)
  ]

  create_all-deleted : (i n : ℕ) (t : List Call) → deleted (create_all w fleet i n t).1 ≡ deleted t
  create_all-deleted i zero t = unfold create_all in refl
  create_all-deleted i (suc n) t = elim (create_all-cases i n t) [
    | inl e ↦
        rw e (create_all-deleted (suc i) n (create_one w fleet i t).1 ∙ create_one-deleted i t)
    | inr (x, y, e) ↦ rw e (create_one-deleted i t)
  ]

  -- A reconcile deletes only servers that the selection has chosen, and only where more servers were
  -- listed than are wanted.
  deletes_only_chosen :
      (servers : List GameServer) (k : Key)
      → Memᴰ k (deleted (reconcile_servers w fleet servers []).1)
      → (chosen : List GameServer) × (select_servers_to_delete servers fleet.spec.replicas
            (strategy_of fleet)
          ≡ some chosen)
        × Memᴰ k (map server_key chosen)
        × (ltb_ℤ fleet.spec.replicas (of_len (length servers)) ≡ true)
  deletes_only_chosen servers k m =
      let n = rw (reconcile_servers-quiet servers []).1 at m in
      elim (scale-cases servers (strategy_of fleet) []) [
        | inl (lt, r) ↦ absurd (not-Memᴰ-nil (rw (r, create_all-deleted _ _ []) at n))
        | inr (inl (chosen, h, gt, r)) ↦ elim (delete_all_only w fleet chosen [] k (rw r at n)) [
          | inl c ↦ (chosen, h, c, gt)
          | inr old ↦ absurd (not-Memᴰ-nil old)
        ]
        | inr (inr (ge, r)) ↦ absurd (not-Memᴰ-nil (rw r at n))
      ]

  -- Where as many servers are listed as are wanted, none is created and none deleted.
  settled_keeps :
      (servers : List GameServer) (t : List Call)
      → fleet.spec.replicas ≡ pos (length servers)
      → (created (reconcile_servers w fleet servers t).1 ≡ created t)
        × (deleted (reconcile_servers w fleet servers t).1 ≡ deleted t)
  settled_keeps servers t e = elim (scale-cases servers (strategy_of fleet) t) [
    | inl (lt, r) ↦ absurd (ground arith)
    | inr (inl (chosen, h, gt, r)) ↦ absurd (ground arith)
    | inr (inr (ge, r)) ↦ (
      (reconcile_servers-quiet servers t).0 ∙ ap created r,
      (reconcile_servers-quiet servers t).1 ∙ ap deleted r,
    )
  ]

  create_all_stops :
      (i n : ℕ) (t : List Call) (e : ApiErr) (server : GameServer)
      → w.own fleet (build_game_server fleet i) ≡ ok server
      → w.create t server ≡ some e
      → create_all w fleet i (suc n) t ≡ (some e, create_server server ∷ t)
  unfolding create_all create_one
  create_all_stops i n t e server own taken = ground (arith, taken)

  scale_stops :
      (servers : List GameServer) (t : List Call) (e : ApiErr) (server : GameServer)
      → ltb_ℤ (of_len (length servers)) fleet.spec.replicas ≡ true
      → w.own fleet (build_game_server fleet (length servers)) ≡ ok server
      → w.create t server ≡ some e
      → scale w fleet servers (strategy_of fleet) t
        ≡ (some (errored (message e)), create_server server ∷ t)
  unfolding scale
  scale_stops servers t e server lt own taken =
      let (m, r) = rounds_pos (length servers) fleet.spec.replicas lt in
      rw (lt, r) (rw (create_all_stops (length servers) m t e server own taken) refl)

  pub reconcile_servers_stops :
      (servers : List GameServer) (t : List Call) (e : ApiErr) (server : GameServer)
      → ltb_ℤ (of_len (length servers)) fleet.spec.replicas ≡ true
      → w.own fleet (build_game_server fleet (length servers)) ≡ ok server
      → w.create t server ≡ some e
      → reconcile_servers w fleet servers t ≡ (errored (message e), create_server server ∷ t)
  unfolding reconcile_servers
  reconcile_servers_stops servers t e server lt own taken =
      ground (arith, scale_stops servers t e server lt own taken)

  module _ (owned : (s : GameServer) → w.own fleet s ≡ ok s)
      (accepted : (t : List Call) (s : GameServer) → w.create t s ≡ none) where
    create_one-accepted :
        (i : ℕ) (t : List Call)
        → ((create_one w fleet i t).0 ≡ none)
          × (created (create_one w fleet i t).1
              ≡ (build_game_server fleet i).metadata.name ∷ created t)
    unfolding create_one
    create_one-accepted i t =
        rw (owned (build_game_server fleet i), create_one) (accepted t _, refl)

    create_all-accepted :
        (i n : ℕ) (t : List Call)
        → length (created (create_all w fleet i n t).1) ≡ length (created t) + n
    create_all-accepted i zero t = unfold create_all in omega arith
    create_all-accepted i (suc n) t = elim (create_all-cases i n t) [
      | inl e ↦ rw e (
          omega (
            arith,
            create_all-accepted (suc i) n (create_one w fleet i t).1,
            ap length (create_one-accepted i t).1,
          ))
      | inr (x, y, e) ↦ absurd (ground (arith, create_one-accepted i t))
    ]

    -- A scale-up whose creations are accepted creates as many servers as are missing.
    pub scale_up_reaches :
        (servers : List GameServer) (r : ℕ)
        → fleet.spec.replicas ≡ pos r
        → length servers < r
        → length servers + length (created (reconcile_servers w fleet servers []).1) ≡ r
    scale_up_reaches servers r e lt = elim (scale-cases servers (strategy_of fleet) []) [
      | inl (up, c) ↦ omega (
        arith,
        ap length ((reconcile_servers-quiet servers []).0 ∙ ap created c),
        create_all-accepted (length servers)
            (rounds (fleet.spec.replicas -ℤ of_len (length servers))) [],
        rounds-eq (length servers) r lt,
        ap (λ z. rounds (z -ℤ of_len (length servers))) e,
      )
      | inr (inl (chosen, h, gt, c)) ↦ absurd (ground arith)
      | inr (inr (ge, c)) ↦ absurd (ground arith)
    ]
