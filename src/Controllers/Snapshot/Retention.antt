-- ===== src/Controllers/Snapshot/Retention.antt =====
-- `enforceRetention` of internal/controllers/gamesnapshot_controller.go: which entries are kept, and
-- what holds of them.
use minato.Prelude.{
  ℕ, zero, suc, ◌-◌, ℤ, pos, negsuc, Bool, false, not, Option, none, some, List, ◌++◌, ltb_ℤ, ◌-ℤ◌,
  length, take, drop, filterb,
}
use minato.Api.GameSnapshot.{SnapshotEntry}

-- The cutoff, if the retention has a duration that parses.
unfoldable pub cutoff : ℕ → Option ℤ → Option ℤ
cutoff now none = none
cutoff now (some d) = some (pos now -ℤ d)

unfoldable pub too_old : Option ℤ → SnapshotEntry → Bool
too_old none entry = false
too_old (some limit) entry = ltb_ℤ (pos entry.created_at) limit

-- How many of the `n` remaining entries are over the count: `len(toKeep) - Count`, where the count is
-- positive.
unfoldable pub surplus : ℤ → ℕ → ℕ
surplus (pos zero) n = 0
surplus (pos (suc c)) n = n - suc c
surplus (negsuc c) n = 0

-- The entries kept, and those to delete: the old ones, then the earliest of the others.
unfoldable pub retain : Option ℤ → ℤ → List SnapshotEntry → List SnapshotEntry × List SnapshotEntry
unfolding too_old surplus
retain limit count entries =
    let young = filterb (λ e. not (too_old limit e)) entries in
    let old = filterb (too_old limit) entries in
    let over = surplus count (length young) in (drop over young, old ++ take over young)
