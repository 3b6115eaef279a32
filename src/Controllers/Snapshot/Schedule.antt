-- ===== src/Controllers/Snapshot/Schedule.antt =====
-- When a snapshot is due: `shouldTakeSnapshot` of internal/controllers/gamesnapshot_controller.go over
-- the wake-ups that it asks for.
use minato.Prelude.{
  ℕ, zero, suc, ◌+◌, ◌-◌, ◌≤◌, ◌<◌, ◌≡◌, ◌≢◌, String, true, false, none, some, str_eq, arith, inl,
  inr, leb,
}
use minato.Cluster.{ok, Outcome-cases}
use minato.Api.GameSnapshot.{GameSnapshot}
use minato.Controllers.Snapshot.Model.{
  World, take_now, wait_for, due_by, due_once, should_take_snapshot, minute,
}
use minato.Controllers.Snapshot.Volume.{recorded}
use minato.Controllers.Snapshot.Loop.{delay}

-- The time of the n-th wake-up of a snapshot that was never taken, each at the requeue delay that the
-- one before asked for, from the reading `now` on.
unfoldable pub wake_up : (ℕ → ℕ) → ℕ → ℕ → ℕ
unfolding due_by
wake_up next now zero = now
wake_up next now (suc n) = let t = wake_up next now n in t + delay (due_by next t none)

waits :
    (next : ℕ → ℕ) (t : ℕ)
    → leb minute (next t - t) ≡ true
    → due_by next t none ≡ wait_for (next t - t)
unfolding due_by
waits next t h = ground arith

early_wake_up :
    (next : ℕ → ℕ) (now : ℕ)
    → ((t : ℕ) → next t + minute ≤ next (next t))
    → now + minute ≤ next now
    → (n : ℕ) → wake_up next now n + minute ≤ next (wake_up next now n)
unfolding wake_up due_by
early_wake_up next now apart early zero = early
early_wake_up next now apart early (suc n) =
    let hyp = early_wake_up next now apart early n in ground (arith, apart (wake_up next now n))

-- A schedule whose times are at least a minute apart, as those of every five-field cron expression
-- are, and a snapshot that was never taken and is first seen a minute or more before its time: at
-- every later wake-up that the delays lead to, the snapshot is again not due.
pub first_never_due :
    (next : ℕ → ℕ) (now : ℕ)
    → ((t : ℕ) → next t + minute ≤ next (next t))
    → now + minute ≤ next now
    → (n : ℕ) → due_by next (wake_up next now n) none ≢ take_now
unfolding wake_up due_by
first_never_due next now apart early n =
    let hyp = early_wake_up next now apart early n in ground arith

-- A snapshot that was taken before and is not due yet is due at the wake-up that the delay asks for.
due_at_wake_up :
    (w : World) (now last d : ℕ) (snap : GameSnapshot)
    → str_eq snap.spec.schedule "" ≡ false
    → snap.status.last_snapshot_at ≡ some last
    → should_take_snapshot w now snap ≡ wait_for d
    → should_take_snapshot w (now + d) snap ≡ take_now
unfolding should_take_snapshot due_by
due_at_wake_up w now last d snap scheduled before h = ground arith

-- A snapshot just recorded is not due again at the time of its recording, whether it has a schedule,
-- whose next time after a time is later than it, or is taken once.
recorded-not_due :
    (w : World) (now : ℕ) (name : String) (snap : GameSnapshot)
    → ((next : ℕ → ℕ) (t : ℕ) → w.cron snap.spec.schedule ≡ ok next → t < next t)
    → should_take_snapshot w now (recorded now name snap) ≢ take_now
unfolding should_take_snapshot due_by due_once recorded
recorded-not_due w now name snap later h = elim (Outcome-cases (w.cron snap.spec.schedule)) [
  | inl (next, e) ↦ ground (arith, later next now e)
  | inr (err, e) ↦ ground arith
]
