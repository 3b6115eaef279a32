-- ===== src/Api/GameSnapshot.antt =====
-- api/operator/v1/gamesnapshot_types.go.
use minato.Prelude.{ℕ, ℤ, String, Option, List}
use minato.Api.Meta.{ObjectMeta, Condition}

pub record SnapshotRetention : Type 0 where
  pub count : ℤ
  pub duration : String

pub record GameSnapshotSpec : Type 0 where
  pub game_server_ref : String
  pub schedule : String
  pub retention : SnapshotRetention

pub record SnapshotEntry : Type 0 where
  pub name : String
  pub created_at : ℕ
  pub volume_snapshot_ref : String
  pub size_bytes : ℤ

pub record GameSnapshotStatus : Type 0 where
  pub snapshots : List SnapshotEntry
  pub last_snapshot_at : Option ℕ
  pub conditions : List Condition

pub record GameSnapshot : Type 0 where
  pub metadata : ObjectMeta
  pub spec : GameSnapshotSpec
  pub status : GameSnapshotStatus
