-- ===== src/Controllers/Snapshot/Recording.antt =====
-- What a run of GameSnapshotReconciler records, internal/controllers/gamesnapshot_controller.go: the
-- entry of a created volume, and how a snapshot without a schedule ends.
use minato.Prelude.{
  ℕ, ◌≡◌, refl, ◌⊎◌, inl, inr, String, true, false, Option, none, some, List, [], ◌∷◌, str_eq,
  arith, Option-cases, is_none, Memᴰ, last?-concat,
}
use minato.Cluster.{ok, ApiErr, Key, key, Outcome-cases, done}
use minato.Api.Meta.{Condition}
use minato.Api.GameServer.{GameServer}
use minato.Api.GameSnapshot.{GameSnapshot}
use minato.Controllers.Conditions.{find_condition, find_condition-set_condition}
use minato.Controllers.Snapshot.Model.{
  Call, get_claim, create_volume, update_status, VolumeSnapshot, NewVolumeSnapshot, World, due_once,
  should_take_snapshot, with_condition,
}
use minato.Controllers.Snapshot.Volume.{volume_name, new_volume, recorded, pending, progress_once}
use minato.Controllers.Snapshot.Taking.{
  set_snapshot_condition, record_volume, create_owned, create_from_claim, create_volume_snapshot,
  wait_for_snapshot_ready, execute_snapshot, create_and_wait, finish_created,
}
use minato.Controllers.Snapshot.Loop.{finish_taken, take_snapshot, process}

-- Nothing is recorded and the caller gets an error, or the volume was asked for whose name the one
-- new entry has.
abbrev pub Records : GameSnapshot → (GameSnapshot × Option String) × List Call → Type 0
Records snap result =
    (result.0.0 ≡ snap × is_none result.0.1 ≡ false)
    ⊎ ((now : ℕ) × (volume : NewVolumeSnapshot) × (Memᴰ (create_volume volume) result.1
          × result.0.0 ≡ recorded now volume.name snap))

create_owned-Records :
    (w : World) (snap : GameSnapshot) (volume : NewVolumeSnapshot) (t : List Call)
    → Records snap (create_owned w snap volume t)
unfolding create_owned record_volume
create_owned-Records w snap volume t = elim (Option-cases (w.create t volume)) [
  | inl e ↦ rw e (inr (_, volume, (Memᴰ.tail (Memᴰ.head refl), refl)))
  | inr (ApiErr.not_found m, e) ↦ rw e (inl (refl, refl))
  | inr (ApiErr.already_exists m, e) ↦ rw e (inl (refl, refl))
  | inr (ApiErr.other m, e) ↦ rw e (inl (refl, refl))
]

create_from_claim-Records :
    (w : World) (snap : GameSnapshot) (server : GameServer) (claim : Key) (t : List Call)
    → Records snap (create_from_claim w snap server claim t)
unfolding create_from_claim
create_from_claim-Records w snap server claim t =
    let volume = new_volume (volume_name (w.clock t) snap) snap server claim.name in
    elim (Option-cases (w.own snap volume)) [
      | inl e ↦ simp e (create_owned-Records w snap volume t)
      | inr (m, e) ↦ simp e (inl (refl, refl))
    ]

-- Either nothing is recorded, and the caller gets an error, or a volume was asked for and an entry of
-- its name appended, with the time of the last snapshot: then also if the write of the status fails.
create_volume_snapshot-Records :
    (w : World) (snap : GameSnapshot) (server : GameServer) (t : List Call)
    → Records snap (create_volume_snapshot w snap server t)
unfolding create_volume_snapshot
create_volume_snapshot-Records w snap server t =
    let k = key server.metadata.name server.metadata.namespace in
    elim (Outcome-cases (w.claim t k)) [
      | inl (claim, e) ↦ rw e (create_from_claim-Records w snap server claim _)
      | inr (m, e) ↦ rw e (inl (refl, refl))
    ]

-- A snapshot without a schedule that was recorded once is left as it is, without a look at its volume.
process_once :
    (w : World) (snap : GameSnapshot) (server : GameServer) (t : List Call) (last : ℕ)
    → str_eq snap.spec.schedule "" ≡ true
    → snap.status.last_snapshot_at ≡ some last
    → process w snap server t ≡ (done, t)
unfolding process should_take_snapshot due_once
process_once w snap server t last once taken = ground arith

-- The snapshot as it was last written to the API server.
abbrev pub last_written : List Call → Option GameSnapshot
last_written [] = none
last_written (update_status snap ∷ t) = some snap
last_written (_ ∷ t) = last_written t

abbrev pub reason_of : Option Condition → Option String
reason_of none = none
reason_of (some c) = some c.reason

-- The Ready condition says that the snapshot failed, and the time of the last snapshot is set.
abbrev pub IsGivenUp : Option GameSnapshot → Type 0
IsGivenUp none = ⊥
IsGivenUp (some final) =
    reason_of (find_condition "Ready" final.status.conditions) ≡ some "SnapshotFailed"
    × is_none final.status.last_snapshot_at ≡ false

-- An entry was recorded, and the volume is not ready.
abbrev EndsPending : GameSnapshot × Option String → Type 0
EndsPending result =
    (now : ℕ) × (name : String) × (snap : GameSnapshot) × (result
      ≡ (recorded now name snap, some "snapshot still pending"))

module _ (w : World) (server : GameServer) (claim : Key) (vs : VolumeSnapshot)
    (claim_found : (t : List Call) (k : Key) → w.claim t k ≡ ok claim)
    (owned : (s : GameSnapshot) (v : NewVolumeSnapshot) → w.own s v ≡ none)
    (created : (t : List Call) (v : NewVolumeSnapshot) → w.create t v ≡ none)
    (written : (t : List Call) (s : GameSnapshot) → w.put_status t s ≡ none)
    (volume_found : (t : List Call) (k : Key) → w.volume t k ≡ ok vs)
    (unready : progress_once vs ≡ pending) where
  create_volume_snapshot-recorded :
      (snap : GameSnapshot) (t : List Call)
      → (now : ℕ) × (name : String) × ((create_volume_snapshot w snap server t).0
          ≡ (recorded now name snap, none))
  unfolding create_volume_snapshot create_from_claim create_owned record_volume recorded new_volume
      volume_name
  create_volume_snapshot-recorded snap t =
      let t' = get_claim (key server.metadata.name server.metadata.namespace) ∷ t in
      let name = volume_name (w.clock t') snap in
      let t'' = create_volume (new_volume name snap server claim.name) ∷ t' in
      (w.clock t'', name, simp (claim_found, owned, created, written))

  wait-pending :
      (now : ℕ) (name : String) (snap : GameSnapshot) (t : List Call)
      → (wait_for_snapshot_ready w (recorded now name snap) t).0
        ≡ (recorded now name snap, some "snapshot still pending")
  unfolding wait_for_snapshot_ready recorded
  wait-pending now name snap t =
      rw (last?-concat snap.status.snapshots, wait_for_snapshot_ready)
        (simp (volume_found, unready))

  create_and_wait-pending :
      (snap : GameSnapshot) (t : List Call) → EndsPending (create_and_wait w snap server t).0
  unfolding create_and_wait finish_created
  create_and_wait-pending snap t =
      let (now, name, e) = create_volume_snapshot-recorded snap t in
      (now, name, snap, rw e (wait-pending now name snap _))

  execute-pending :
      (snap : GameSnapshot) (t : List Call) → EndsPending (execute_snapshot w snap server t).0
  unfolding execute_snapshot set_snapshot_condition
  execute-pending snap t = create_and_wait-pending _ _

  -- The case of a volume that the storage has not finished when it is first looked at, which is what a
  -- volume just created is: the last write of the run says that the snapshot failed.
  pub take_snapshot-pending :
      (snap : GameSnapshot) (t : List Call)
      → IsGivenUp (last_written (take_snapshot w snap server t).1)
  unfolding take_snapshot finish_taken set_snapshot_condition with_condition recorded
  take_snapshot-pending snap t =
      let (now, name, snap', e) = execute-pending snap t in
      rw e (grind (arith, find_condition-set_condition))
