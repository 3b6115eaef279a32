-- ===== src/Controllers/Snapshot/Model.antt =====
-- The calls of GameSnapshotReconciler, internal/controllers/gamesnapshot_controller.go, the services
-- that answer them, and the functions of it that make no call.
use minato.Prelude.{
  ℕ, ◌-◌, ℤ, String, Bool, true, false, not, ◌&&◌, Option, none, some, List, [], ◌∷◌, str_eq, ◌⧺◌,
  ltb, leb, quote, if◌then◌else◌, last?,
}
use minato.Cluster.{Outcome, ok, fail, ApiErr, message, Key}
use minato.Api.Meta.{Condition, ConditionStatus, condition_true}
use minato.Api.GameServer.{GameServer}
use minato.Api.GameSnapshot.{GameSnapshot}
use minato.Controllers.Conditions.{set_condition}

-- A stored VolumeSnapshot, as the unstructured accessors read it: each field missing, of a wrong type
-- (an error), or a value.
pub data Field (A : Type 0) : Type 0 where
  missing : Field A
  malformed : String → Field A
  value : A → Field A

pub record VolumeSnapshot : Type 0 where
  pub ready_to_use : Field Bool
  pub restore_size : Field ℤ
  pub error_list : Field (List String)
  pub error_message : Field String

-- What is created: the name, namespace, source claim and labels of a VolumeSnapshot.
pub record NewVolumeSnapshot : Type 0 where
  pub name : String
  pub namespace : String
  pub claim : String
  pub labels : List (String × String)

pub data Call : Type 0 where
  get_snapshot : Key → Call
  update_snapshot : GameSnapshot → Call
  update_status : GameSnapshot → Call
  get_server : Key → Call
  get_claim : Key → Call
  create_volume : NewVolumeSnapshot → Call
  get_volume : Key → Call
  delete_volume : Key → Call
  dial : String → Call
  agent_save : Call
  agent_shutdown : Call

-- The API server, the agent, the clock, and the libraries: `cron` parses a schedule into the function
-- that gives the first time after a time, and `parse_duration` is `time.ParseDuration`.
pub record World : Type 0 where
  pub snapshot : List Call → Key → Outcome GameSnapshot
  pub put : List Call → GameSnapshot → Option ApiErr
  pub put_status : List Call → GameSnapshot → Option ApiErr
  pub server : List Call → Key → Outcome GameServer
  pub claim : List Call → Key → Outcome Key
  pub own : GameSnapshot → NewVolumeSnapshot → Option ApiErr
  pub create : List Call → NewVolumeSnapshot → Option ApiErr
  pub volume : List Call → Key → Outcome VolumeSnapshot
  pub connect : List Call → String → Option ApiErr
  pub save : List Call → Option ApiErr
  pub clock : List Call → ℕ
  pub cron : String → Outcome (ℕ → ℕ)
  pub parse_duration : String → Option ℤ

abbrev pub snapshot_finalizer : String
snapshot_finalizer = "minato.io/gamesnapshot-finalizer"

-- Ten minutes, one minute, fifteen and ten seconds, in nanoseconds.
abbrev pub snapshot_timeout : ℕ
snapshot_timeout = 600000000000

abbrev pub minute : ℕ
minute = 60000000000

abbrev pub pending_requeue : ℕ
pending_requeue = 15000000000

abbrev pub missing_requeue : ℕ
missing_requeue = 10000000000

-- `(bool, time.Duration, error)` of `shouldTakeSnapshot`.
pub data Due : Type 0 where
  take_now : Due
  wait_for : ℕ → Due
  bad_schedule : String → Due

-- A snapshot that was never taken is due if the schedule's next time is less than a minute off; one
-- that was, if the schedule's time after it is reached.
unfoldable pub due_by : (ℕ → ℕ) → ℕ → Option ℕ → Due
due_by next now none = if ltb (next now - now) minute then take_now else wait_for (next now - now)
due_by next now (some last) = if leb (next last) now then take_now else wait_for (next last - now)

unfoldable pub due_once : Option ℕ → Due
due_once none = take_now
due_once (some last) = wait_for 0

-- `shouldTakeSnapshot`, at the clock reading `now`.
unfoldable pub should_take_snapshot : World → ℕ → GameSnapshot → Due
unfolding due_by due_once
should_take_snapshot w now snap =
    if str_eq snap.spec.schedule ""
    then due_once snap.status.last_snapshot_at
    else elim (w.cron snap.spec.schedule) [
      | fail e ↦
          bad_schedule ("invalid cron schedule " ⧺ quote snap.spec.schedule ⧺ ": " ⧺ message e)
      | ok next ↦ due_by next now snap.status.last_snapshot_at
    ]

abbrev pub is_true : ConditionStatus → Bool
is_true condition_true = true
is_true _ = false

-- A SnapshotReady condition that is true.
unfoldable pub snapshot_ready : List Condition → Bool
snapshot_ready [] = false
snapshot_ready (c ∷ cs) =
    if str_eq c.type "SnapshotReady" && is_true c.status then true else snapshot_ready cs

-- `isSnapshotInProgress`, at the clock reading `now`.
unfoldable pub is_snapshot_in_progress : ℕ → GameSnapshot → Bool
unfolding snapshot_ready
is_snapshot_in_progress now snap = elim (last? snap.status.snapshots) [
  | none ↦ false
  | some latest ↦
      ltb (now - latest.created_at) snapshot_timeout && not (snapshot_ready snap.status.conditions)
]

-- What the reconciler's `setCondition` writes into the object.
unfoldable pub with_condition :
    ℕ → GameSnapshot → String → ConditionStatus → String → String → GameSnapshot
with_condition now snap type status reason text = record snap {
  status = record (snap.status) {
    conditions = set_condition snap.status.conditions (record {
      type = type;
      status = status;
      reason = reason;
      message = text;
      observed_generation = snap.metadata.generation;
      last_transition_time = now;
    });
  };
}
