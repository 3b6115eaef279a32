-- ===== src/Controllers/Snapshot/Loop.antt =====
-- `Reconcile` of GameSnapshotReconciler and its methods that monitor a snapshot and enforce the
-- retention, internal/controllers/gamesnapshot_controller.go.
use minato.Prelude.{
  ℕ, ◌-◌, String, true, false, not, ◌&&◌, Option, none, some, List, [], ◌∷◌, str_eq, ◌⧺◌, ◌==◌, ltb,
  ltb_ℤ, pos, if◌then◌else◌, last?,
}
use minato.Cluster.{
  ok, fail, ApiErr, is_not_found, Key, key, Reconciled, requeue, done, errored, message,
  unless_not_found, of_error, M, ◌>>=◌, ◌>>◌, pure, ask, tell, read_clock,
}
use minato.Api.Meta.{condition_false, contains_finalizer, add_finalizer, remove_finalizer}
use minato.Api.GameServer.{GameServer}
use minato.Api.GameSnapshot.{GameSnapshot, SnapshotEntry}
use minato.Controllers.Snapshot.Model.{
  Call, get_snapshot, update_snapshot, update_status, get_server, get_volume, delete_volume, World,
  snapshot_finalizer, snapshot_timeout, pending_requeue, missing_requeue, Due, take_now, wait_for,
  bad_schedule, should_take_snapshot, is_snapshot_in_progress,
}
use minato.Controllers.Snapshot.Volume.{unreadable, ready, broken, pending, progress_later}
use minato.Controllers.Snapshot.Retention.{cutoff, retain}
use minato.Controllers.Snapshot.Taking.{
  volume_key, set_snapshot_condition, complete, execute_snapshot,
}

abbrev pub with_entries : GameSnapshot → List SnapshotEntry → GameSnapshot
with_entries snap entries = record snap { status = record (snap.status) { snapshots = entries } }

abbrev pub with_finalizers : GameSnapshot → List String → GameSnapshot
with_finalizers snap fs = record snap { metadata = record (snap.metadata) { finalizers = fs } }

-- The duration that `shouldTakeSnapshot` returns.
abbrev pub delay : Due → ℕ
delay take_now = 0
delay (wait_for d) = d
delay (bad_schedule m) = 0

module _ (w : World) where
  -- The two branches of `monitorSnapshot`: the volume took too long, or is looked at again.
  unfoldable pub time_out : GameSnapshot → SnapshotEntry → M Call Reconciled
  time_out snap latest = do
    set_snapshot_condition w snap "SnapshotReady" condition_false "SnapshotTimeout"
        ("VolumeSnapshot " ⧺ latest.volume_snapshot_ref ⧺ " timed out after 10m0s")
    pure done

  unfoldable pub look_again : GameSnapshot → SnapshotEntry → M Call Reconciled
  look_again snap latest = do
    found ← ask (get_volume (volume_key snap latest)) (λ t. w.volume t (volume_key snap latest))
    elim found [
      | fail e ↦ pure (if is_not_found e then requeue missing_requeue else errored (message e))
      | ok vs ↦ elim (progress_later vs) [
        | unreadable m ↦ pure (errored ("failed to read VolumeSnapshot status: " ⧺ m))
        | ready ↦ do complete w snap latest vs; pure done
        | broken m ↦ do
          set_snapshot_condition w snap "SnapshotReady" condition_false "SnapshotFailed" m
          pure (errored ("VolumeSnapshot failed: " ⧺ m))
        | pending ↦ pure (requeue pending_requeue)
      ]
    ]

  -- `monitorSnapshot`.
  unfoldable pub monitor_latest : GameSnapshot → SnapshotEntry → M Call Reconciled
  monitor_latest snap latest = do
    now ← read_clock w.clock
    let late = ltb snapshot_timeout (now - latest.created_at)
    elim late [ true ↦ time_out snap latest | false ↦ look_again snap latest ]

  unfoldable pub monitor_snapshot : GameSnapshot → M Call Reconciled
  monitor_snapshot snap = elim (last? snap.status.snapshots) [
    | none ↦ pure done
    | some latest ↦ monitor_latest snap latest
  ]

  -- Deletions of old volumes; a failure is logged.
  unfoldable pub delete_volumes : GameSnapshot → List SnapshotEntry → M Call (Unit {0})
  delete_volumes snap [] = pure tt
  delete_volumes snap (entry ∷ rest) = do
    tell (delete_volume (volume_key snap entry))
    delete_volumes snap rest

  -- `enforceRetention`, whose error the caller logs: the object in memory is what it returns.
  unfoldable pub enforce_retention : GameSnapshot → M Call GameSnapshot
  enforce_retention snap =
      if not (ltb_ℤ (pos 0) snap.spec.retention.count) && str_eq snap.spec.retention.duration ""
      then pure snap
      else (do
        now ← read_clock w.clock
        let limit =
            if str_eq snap.spec.retention.duration ""
            then none
            else cutoff now (w.parse_duration snap.spec.retention.duration)
        let (kept, dropped) = retain limit snap.spec.retention.count snap.status.snapshots
        delete_volumes snap dropped
        tell (update_status (with_entries snap kept))
        pure (with_entries snap kept))

  -- From the due snapshot on.
  unfoldable pub finish_taken : String → GameSnapshot × Option String → M Call Reconciled
  finish_taken schedule (snap, some e) = do
    set_snapshot_condition w snap "Ready" condition_false "SnapshotFailed" e
    pure done
  finish_taken schedule (snap, none) = do
    kept ← enforce_retention snap
    now ← read_clock w.clock
    pure (if str_eq schedule "" then done else requeue (delay (should_take_snapshot w now kept)))

  unfoldable pub take_snapshot : GameSnapshot → GameServer → M Call Reconciled
  take_snapshot snap server = do
    taken ← execute_snapshot w snap server
    finish_taken snap.spec.schedule taken

  -- From the resolved server on.
  unfoldable pub process : GameSnapshot → GameServer → M Call Reconciled
  process snap server = do
    now ← read_clock w.clock
    elim (should_take_snapshot w now snap) [
      | bad_schedule m ↦ do
        set_snapshot_condition w snap "Ready" condition_false "InvalidSchedule" m
        pure done
      | wait_for d ↦ pure (requeue d)
      | take_now ↦
          if is_snapshot_in_progress now snap
          then monitor_snapshot snap
          else take_snapshot snap server
    ]

  unfoldable pub put_finalizers : GameSnapshot → List String → M Call Reconciled
  put_finalizers snap fs = do
    err ← ask (update_snapshot (with_finalizers snap fs)) (λ t. w.put t (with_finalizers snap fs))
    pure (of_error err)

  -- A live object with its finalizer: resolve the server.
  unfoldable pub resolve : GameSnapshot → M Call Reconciled
  resolve snap = do
    let server_key = key snap.spec.game_server_ref snap.metadata.namespace
    found ← ask (get_server server_key) (λ t. w.server t server_key)
    elim found [
      | fail (ApiErr.not_found m) ↦ do
        set_snapshot_condition w snap "Ready" condition_false "GameServerNotFound"
            ("referenced GameServer " ⧺ snap.spec.game_server_ref ⧺ " not found")
        pure done
      | fail e ↦ pure (errored (message e))
      | ok server ↦ process snap server
    ]

  -- The finalizer's four cases.
  unfoldable pub dispatch : GameSnapshot → M Call Reconciled
  dispatch snap =
      let held = contains_finalizer snapshot_finalizer snap.metadata.finalizers in
      if snap.metadata.deletion_timestamp == 0
      then (if held
          then resolve snap
          else put_finalizers snap (add_finalizer snapshot_finalizer snap.metadata.finalizers))
      else (if held
          then put_finalizers snap (remove_finalizer snapshot_finalizer snap.metadata.finalizers)
          else pure done)

  -- `Reconcile`.
  unfoldable pub reconcile : Key → M Call Reconciled
  reconcile req = do
    got ← ask (get_snapshot req) (λ t. w.snapshot t req)
    elim got [ fail e ↦ pure (unless_not_found e) | ok snap ↦ dispatch snap ]
