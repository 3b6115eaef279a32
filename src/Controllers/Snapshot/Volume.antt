-- ===== src/Controllers/Snapshot/Volume.antt =====
-- The VolumeSnapshot that GameSnapshotReconciler creates, and what it reads from a stored one.
use minato.Prelude.{
  ℕ, ◌/◌, pos, String, Bool, true, false, some, List, [], ◌∷◌, ◌++◌, ◌⧺◌, itoa, set_last, str_eq,
  if◌then◌else◌,
}
use minato.Api.GameServer.{GameServer}
use minato.Api.GameSnapshot.{GameSnapshot, SnapshotEntry}
use minato.Controllers.Snapshot.Model.{
  Field, missing, malformed, value, VolumeSnapshot, NewVolumeSnapshot,
}

-- `%s-%d` of the snapshot's name and the Unix time in seconds.
unfoldable pub volume_name : ℕ → GameSnapshot → String
volume_name now snap = snap.metadata.name ⧺ "-" ⧺ itoa (now / 1000000000)

unfoldable pub new_volume : String → GameSnapshot → GameServer → String → NewVolumeSnapshot
new_volume name snap server claim = record {
  name = name;
  namespace = snap.metadata.namespace;
  claim = claim;
  labels =
      ("minato.io/gameserver", server.metadata.name)
      ∷ ("minato.io/snapshot", snap.metadata.name)
      ∷ ("minato.io/managed-by", "gamesnapshot-controller")
      ∷ [];
}

-- The entry of a created VolumeSnapshot is appended, and its time noted as that of the last snapshot.
unfoldable pub recorded : ℕ → String → GameSnapshot → GameSnapshot
recorded now name snap = record snap {
  status = record (snap.status) {
    snapshots =
        snap.status.snapshots
        ++ (record {
          name = name;
          created_at = now;
          volume_snapshot_ref = name;
          size_bytes = pos 0;
        })
          ∷ [];
    last_snapshot_at = some now;
  };
}

-- The size of a ready volume is written into the latest entry.
unfoldable pub with_size : VolumeSnapshot → SnapshotEntry → GameSnapshot → GameSnapshot
with_size vs latest snap = elim vs.restore_size [
  | value size ↦ record snap {
    status = record (snap.status) {
      snapshots = set_last snap.status.snapshots (record latest { size_bytes = size });
    };
  }
  | missing ↦ snap
  | malformed m ↦ snap
]

-- What a status check finds: an unreadable field, a ready volume, a failed one, or none of these.
pub data Progress : Type 0 where
  unreadable : String → Progress
  ready : Progress
  broken : String → Progress
  pending : Progress

abbrev has_errors : Field (List String) → Bool
has_errors (value (x ∷ xs)) = true
has_errors (value []) = false
has_errors missing = false
has_errors (malformed m) = false

-- The checks of `waitForSnapshotReady`: `status.error` as a list.
unfoldable pub progress_once : VolumeSnapshot → Progress
progress_once vs = elim vs.ready_to_use [
  | malformed m ↦ unreadable m
  | value true ↦ ready
  | _ ↦ elim (has_errors vs.error_list) [ true ↦ broken "" | false ↦ pending ]
]

abbrev error_text : Field String → String
error_text (value m) = m
error_text missing = ""
error_text (malformed m) = ""

-- The checks of `monitorSnapshot`: `status.error.message` as a text.
unfoldable pub progress_later : VolumeSnapshot → Progress
progress_later vs = elim vs.ready_to_use [
  | malformed m ↦ unreadable m
  | value true ↦ ready
  | _ ↦
      if str_eq (error_text vs.error_message) ""
      then pending
      else broken (error_text vs.error_message)
]
