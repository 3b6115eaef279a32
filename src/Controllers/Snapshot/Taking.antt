-- ===== src/Controllers/Snapshot/Taking.antt =====
-- The methods of GameSnapshotReconciler that take a snapshot: `executeSnapshot` and what it calls,
-- internal/controllers/gamesnapshot_controller.go. A method that changes the object in memory returns
-- it with its error text.
use minato.Prelude.{String, Option, none, some, ◌⧺◌, itoa, last?}
use minato.Cluster.{
  ok, fail, ApiErr, Key, key, message, M, ◌>>=◌, ◌>>◌, pure, ask, tell, read_clock,
}
use minato.Api.Meta.{ConditionStatus, condition_true, condition_false}
use minato.Api.GameServer.{GameServer}
use minato.Api.GameSnapshot.{GameSnapshot, SnapshotEntry}
use minato.Controllers.Snapshot.Model.{
  VolumeSnapshot, NewVolumeSnapshot, Call, update_status, get_claim, create_volume, get_volume,
  dial, agent_save, agent_shutdown, World, with_condition,
}
use minato.Controllers.Snapshot.Volume.{
  volume_name, new_volume, recorded, with_size, unreadable, ready, broken, pending, progress_once,
}

abbrev pub volume_key : GameSnapshot → SnapshotEntry → Key
volume_key snap entry = key entry.volume_snapshot_ref snap.metadata.namespace

abbrev pub agent_address : GameServer → String
agent_address server =
    server.metadata.name ⧺ "-agent." ⧺ server.metadata.namespace ⧺ ".svc.cluster.local:" ⧺ itoa 9876

module _ (w : World) where
  -- `setCondition`: the error of the status update is dropped.
  unfoldable pub set_snapshot_condition :
      GameSnapshot → String → ConditionStatus → String → String → M Call GameSnapshot
  set_snapshot_condition snap type status reason text = do
    now ← read_clock w.clock
    let snap' = with_condition now snap type status reason text
    tell (update_status snap')
    pure snap'

  -- `callAgentSave`, whose error the caller logs and drops.
  unfoldable pub call_agent_save : GameServer → M Call (Unit {0})
  call_agent_save server = do
    dialled ← ask (dial (agent_address server)) (λ t. w.connect t (agent_address server))
    elim dialled [
      | some e ↦ pure tt
      | none ↦ do
        saved ← ask agent_save w.save
        elim saved [ none ↦ pure tt | some e ↦ tell agent_shutdown ]
    ]

  -- From the created volume on: the entry is recorded and the status written.
  unfoldable pub record_volume : GameSnapshot → String → M Call (GameSnapshot × Option String)
  record_volume snap name = do
    now ← read_clock w.clock
    let snap' = recorded now name snap
    err ← ask (update_status snap') (λ t. w.put_status t snap')
    pure (snap', elim err [ none ↦ none | some e ↦ some (message e) ])

  -- `createVolumeSnapshot`, by its parts from the end: the creation, the owner, the claim.
  unfoldable pub create_owned :
      GameSnapshot → NewVolumeSnapshot → M Call (GameSnapshot × Option String)
  create_owned snap volume = do
    err ← ask (create_volume volume) (λ t. w.create t volume)
    elim err [
      | some (ApiErr.not_found m) ↦ pure (snap, some ("VolumeSnapshot CRD not installed: " ⧺ m))
      | some e ↦ pure (snap, some ("failed to create VolumeSnapshot: " ⧺ message e))
      | none ↦ record_volume snap volume.name
    ]

  unfoldable pub create_from_claim :
      GameSnapshot → GameServer → Key → M Call (GameSnapshot × Option String)
  create_from_claim snap server claim = do
    now ← read_clock w.clock
    let volume = new_volume (volume_name now snap) snap server claim.name
    elim (w.own snap volume) [
      | some e ↦
          pure (snap, some ("failed to set controller reference on VolumeSnapshot: " ⧺ message e))
      | none ↦ create_owned snap volume
    ]

  unfoldable pub create_volume_snapshot :
      GameSnapshot → GameServer → M Call (GameSnapshot × Option String)
  create_volume_snapshot snap server = do
    let server_key = key server.metadata.name server.metadata.namespace
    found ← ask (get_claim server_key) (λ t. w.claim t server_key)
    elim found [
      | fail e ↦ pure (snap, some ("failed to get PVC: " ⧺ message e))
      | ok claim ↦ create_from_claim snap server claim
    ]

  -- The ready branch that both status checks share.
  unfoldable pub complete : GameSnapshot → SnapshotEntry → VolumeSnapshot → M Call GameSnapshot
  complete snap latest vs =
      set_snapshot_condition (with_size vs latest snap) "SnapshotReady" condition_true
        "SnapshotComplete" ("VolumeSnapshot " ⧺ latest.volume_snapshot_ref ⧺ " is ready")

  -- `waitForSnapshotReady`: one look, and an error unless the volume is ready.
  unfoldable pub wait_for_snapshot_ready : GameSnapshot → M Call (GameSnapshot × Option String)
  wait_for_snapshot_ready snap = elim (last? snap.status.snapshots) [
    | none ↦ pure (snap, none)
    | some latest ↦ do
      found ← ask (get_volume (volume_key snap latest)) (λ t. w.volume t (volume_key snap latest))
      elim found [
        | fail e ↦ pure (snap, some ("failed to get VolumeSnapshot status: " ⧺ message e))
        | ok vs ↦ elim (progress_once vs) [
          | unreadable m ↦ pure (snap, some ("failed to read VolumeSnapshot status: " ⧺ m))
          | ready ↦ do snap' ← complete snap latest vs; pure (snap', none)
          | broken m ↦ do
            snap' ←
                set_snapshot_condition snap "SnapshotReady" condition_false "SnapshotFailed"
                  ("VolumeSnapshot " ⧺ latest.volume_snapshot_ref ⧺ " failed")
            pure (snap', some "VolumeSnapshot failed")
          | pending ↦ pure (snap, some "snapshot still pending")
        ]
      ]
  ]

  -- `executeSnapshot`: save, then create and look once.
  unfoldable pub finish_created :
      GameSnapshot × Option String → M Call (GameSnapshot × Option String)
  finish_created (snap, some e) = pure (snap, some ("failed to create VolumeSnapshot: " ⧺ e))
  finish_created (snap, none) = wait_for_snapshot_ready snap

  unfoldable pub create_and_wait : GameSnapshot → GameServer → M Call (GameSnapshot × Option String)
  create_and_wait snap server = do
    created ← create_volume_snapshot snap server
    finish_created created

  unfoldable pub execute_snapshot :
      GameSnapshot → GameServer → M Call (GameSnapshot × Option String)
  execute_snapshot snap server = do
    saving ←
        set_snapshot_condition snap "SnapshotReady" condition_false "Saving"
          "requesting game save via agent"
    call_agent_save server
    taking ←
        set_snapshot_condition saving "SnapshotReady" condition_false "Snapshotting"
          "creating VolumeSnapshot"
    create_and_wait taking server
