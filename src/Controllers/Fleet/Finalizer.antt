-- ===== src/Controllers/Fleet/Finalizer.antt =====
-- How a fleet is deleted, finalize and cleanupFleet of gameserverfleet_controller.go.
use minato.Prelude.{
  ◌≡◌, refl, sym, subst, ap, ◌∙◌, ◌⊎◌, inl, inr, Option, true, false, none, some, List, ◌∷◌, arith,
  Option-cases, Bool-cases,
}
use minato.Cluster.{ApiErr, ok, IsGone, IsGone-cases, is_not_found}
use minato.Api.Meta.{contains_finalizer, remove_finalizer, remove_finalizer-contains}
use minato.Api.GameServer.{GameServer}
use minato.Api.Fleet.{GameServerFleet}
use minato.Controllers.Fleet.Model.{
  Call, update_fleet, delete_server, list_servers, World, fleet_finalizer,
}
use minato.Controllers.Deletions.{deletions, AreGone, IsHeld, Deletes, loop-Deletes}
use minato.Controllers.Fleet.Loop.{
  server_key, delete_one, delete_listed, list_fleet, cleanup_fleet, put_finalizers, finalize,
  with_finalizers,
}

abbrev pub deletion : GameServer → Call
deletion server = delete_server (server_key server)

-- The calls after the servers of the fleet are listed.
abbrev pub listing : GameServerFleet → List Call → List Call
listing fleet t = list_servers fleet.metadata.namespace fleet.metadata.name ∷ t

module _ (w : World) where
  -- How the API server answers the deletion of a server.
  abbrev pub answer : List Call → GameServer → Option ApiErr
  answer t server = w.delete t (server_key server)

  delete_one-gone :
      (server : GameServer) (t : List Call)
      → IsGone (answer t server)
      → delete_one w (server_key server) t ≡ (none, deletion server ∷ t)
  unfolding delete_one
  delete_one-gone server t gone = elim (IsGone-cases (w.delete t (server_key server)) gone) [
    | inl e ↦ ground arith
    | inr (m, e) ↦ ground arith
  ]

  delete_one-failed :
      (server : GameServer) (t : List Call) (e : ApiErr)
      → answer t server ≡ some e
      → is_not_found e ≡ false
      → delete_one w (server_key server) t ≡ (some e, deletion server ∷ t)
  unfolding delete_one
  delete_one-failed server t e h other = ground arith

  -- What the loop makes of the answer to a deletion.
  after : List GameServer → Option ApiErr × List Call → Option ApiErr × List Call
  after rest (none, t) = delete_listed w rest t
  after rest (some e, t) = (some e, t)

  delete_listed-after :
      (server : GameServer) (rest : List GameServer) (t : List Call)
      → delete_listed w (server ∷ rest) t ≡ after rest (delete_one w (server_key server) t)
  unfolding delete_listed delete_one after
  delete_listed-after server rest t = elim (Option-cases (answer t server)) [
    | inl e ↦ ground arith
    | inr (x, e) ↦ elim (Bool-cases (is_not_found x)) [
      | inl missing ↦ ground arith
      | inr other ↦ ground arith
    ]
  ]

  delete_listed-Deletes :
      (servers : List GameServer) (t : List Call)
      → Deletes deletion answer servers t (delete_listed w servers t)
  unfolding delete_listed after
  delete_listed-Deletes =
      loop-Deletes deletion answer (delete_listed w) (λ t. refl)
        (λ server rest t gone.
          delete_listed-after server rest t ∙ ap (after rest) (delete_one-gone server t gone))
        (λ server rest t e h other.
          delete_listed-after server rest t
          ∙ ap (after rest) (delete_one-failed server t e h other))

  cleanup_fleet-eq :
      (fleet : GameServerFleet) (servers : List GameServer) (t : List Call)
      → w.servers t fleet.metadata.namespace fleet.metadata.name ≡ ok servers
      → cleanup_fleet w fleet t ≡ delete_listed w servers (listing fleet t)
  unfolding cleanup_fleet list_fleet
  cleanup_fleet-eq fleet servers t listed = rw (listed, cleanup_fleet)

  finalize-log :
      (fleet : GameServerFleet) (t log : List Call)
      → contains_finalizer fleet_finalizer fleet.metadata.finalizers ≡ true
      → cleanup_fleet w fleet t ≡ (none, log)
      → (finalize w fleet t).1
        ≡ update_fleet
            (with_finalizers fleet (remove_finalizer fleet_finalizer fleet.metadata.finalizers))
          ∷ log
  unfolding finalize put_finalizers
  finalize-log fleet t log has h = ground arith

  finalize-stops :
      (fleet : GameServerFleet) (t log : List Call) {e : ApiErr}
      → contains_finalizer fleet_finalizer fleet.metadata.finalizers ≡ true
      → cleanup_fleet w fleet t ≡ (some e, log)
      → (finalize w fleet t).1 ≡ log
  unfolding finalize
  finalize-stops fleet t log has h = ground arith

  -- All servers are gone, and then the fleet is written once, without its finalizer.
  abbrev pub IsReleased : List GameServer → List Call → List Call → Type 0
  IsReleased servers t log =
      AreGone deletion answer servers t
      × ((f : GameServerFleet) × (contains_finalizer fleet_finalizer f.metadata.finalizers ≡ false)
          × (log ≡ update_fleet f ∷ deletions deletion servers t))

  -- The calls for a fleet with its finalizer that is being deleted, after its servers are listed:
  -- either all of them are deleted, each of these deletions succeeds or finds its server missing, and
  -- then the fleet is written without its finalizer; or one deletion is the first that fails
  -- otherwise, it is the last call, and the fleet is not written.
  pub finalize_releases :
      (fleet : GameServerFleet) (servers : List GameServer) (t : List Call)
      → contains_finalizer fleet_finalizer fleet.metadata.finalizers ≡ true
      → w.servers t fleet.metadata.namespace fleet.metadata.name ≡ ok servers
      → IsReleased servers (listing fleet t) (finalize w fleet t).1
        ⊎ ((e : ApiErr) × IsHeld deletion answer servers (listing fleet t) e (finalize w fleet t).1)
  finalize_releases fleet servers t has listed =
      ends (delete_listed w servers (listing fleet t)) (cleanup_fleet-eq fleet servers t listed)
        (delete_listed-Deletes servers (listing fleet t))
    where
      ends :
          (result : Option ApiErr × List Call)
          → cleanup_fleet w fleet t ≡ result
          → Deletes deletion answer servers (listing fleet t) result
          → IsReleased servers (listing fleet t) (finalize w fleet t).1
            ⊎ ((e : ApiErr) × IsHeld deletion answer servers
                  (listing fleet t)
                  e
                  (finalize w fleet t).1)
      ends (none, log) same (gone, f) =
          let left = remove_finalizer fleet_finalizer fleet.metadata.finalizers in
          inl (
            gone,
            (
              with_finalizers fleet left,
              remove_finalizer-contains fleet_finalizer fleet.metadata.finalizers,
              finalize-log fleet t log has same
                  ∙ ap (λ u. update_fleet (with_finalizers fleet left) ∷ u) f,
            ),
          )
      ends (some e, log) same held = inr (
        e,
        subst (IsHeld deletion answer servers (listing fleet t) e)
            (sym (finalize-stops fleet t log has same)) held,
      )
