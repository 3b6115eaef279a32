-- ===== src/Examples/Snapshot.antt =====
-- The snapshot controller at concrete inputs.
use minato.Prelude.{
  ℕ, ◌+◌, ◌*◌, ◌/◌, ◌≤◌, ◌<◌, pos, ◌≡◌, ap, refl, ◌≢◌, String, none, some, List, [], ◌∷◌, All,
  Option, arith,
}
use minato.Cluster.{fail, ok, Outcome, key}
use minato.Api.GameSnapshot.{GameSnapshot, SnapshotEntry}
use minato.Controllers.Snapshot.Model.{World, VolumeSnapshot, missing, take_now, due_by}
use minato.Controllers.Snapshot.Volume.{progress_once}
use minato.Controllers.Snapshot.Retention.{retain}
use minato.Controllers.Snapshot.Loop.{take_snapshot}
use minato.Controllers.Snapshot.Kept.{retain_newest}
use minato.Controllers.Snapshot.Schedule.{wake_up, first_never_due}
use minato.Controllers.Snapshot.Recording.{last_written, IsGivenUp, take_snapshot-pending}
use minato.Examples.Data.{named, survival}

abbrev entry_of : String → ℕ → SnapshotEntry
entry_of name t = record {
  name = name;
  created_at = t;
  volume_snapshot_ref = name;
  size_bytes = pos 0;
}

abbrev entries : List SnapshotEntry
entries = entry_of "a" 10 ∷ entry_of "b" 20 ∷ entry_of "c" 30 ∷ []

retain_newest_example :
    All
      (λ d. All (λ k. d.created_at ≤ k.created_at) (retain (some (pos 15)) (pos 1) entries).0)
      (retain (some (pos 15)) (pos 1) entries).1
retain_newest_example =
    retain_newest (some (pos 15)) (pos 1) entries
      ((omega arith, (omega arith, tt)), ((omega arith, tt), (tt, tt)))

abbrev day : ℕ
day = 86400000000000

-- The schedule `0 0 * * *`: midnight.
abbrev midnight : ℕ → ℕ
midnight t = (t / day + 1) * day

abbrev snapshot_of : String → Option ℕ → GameSnapshot
snapshot_of schedule last = record {
  metadata = named "nightly";
  spec = record {
    game_server_ref = "survival";
    schedule = schedule;
    retention = record { count = pos 3; duration = "" };
  };
  status = record { snapshots = []; last_snapshot_at = last; conditions = [] };
}

abbrev new_volume_state : VolumeSnapshot
new_volume_state = record {
  ready_to_use = missing;
  restore_size = missing;
  error_list = missing;
  error_message = missing;
}

abbrev storage : World
storage = record {
  snapshot = λ t k. ok (snapshot_of "" none);
  put = λ t s. none;
  put_status = λ t s. none;
  server = λ t k. ok survival;
  claim = λ t k. ok (key "survival" "games");
  own = λ s v. none;
  create = λ t v. none;
  volume = λ t k. ok new_volume_state;
  connect = λ t address. none;
  save = λ t. none;
  clock = λ t. 1000;
  cron = λ s. ok midnight;
  parse_duration = λ s. none;
}

first_never_due_example : due_by midnight (wake_up midnight 1000 2) none ≢ take_now
first_never_due_example = first_never_due midnight 1000 (λ t. omega arith) (omega arith) 2

abbrev next_time : Outcome (ℕ → ℕ) → ℕ → ℕ
next_time (ok next) t = next t
next_time (fail e) t = t

later_than : (next : ℕ → ℕ) (t : ℕ) → storage.cron "0 0 * * *" ≡ ok next → t < next t
later_than next t e = let same : midnight t ≡ next t = ap (λ o. next_time o t) e in omega arith

take_snapshot-pending_example :
    IsGivenUp (last_written (take_snapshot storage (snapshot_of "" none) survival []).1)
unfolding progress_once
take_snapshot-pending_example =
    take_snapshot-pending storage survival (key "survival" "games") new_volume_state (λ t k. refl)
      (λ s v. refl) (λ t v. refl) (λ t s. refl) (λ t k. refl) refl (snapshot_of "" none) []
