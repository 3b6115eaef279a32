-- ===== src/Controllers/Snapshot/Kept.antt =====
-- What `enforceRetention` of internal/controllers/gamesnapshot_controller.go keeps and deletes.
use minato.Prelude.{
  ℕ, zero, suc, ◌≤◌, ℤ, pos, ◌≡◌, refl, ap, Bool, true, false, not, Option, none, some, List, [],
  ◌∷◌, ◌++◌, length, take, drop, filterb, All, All-append, All-drop, All-map, Bool-cases, inl, inr,
  arith, length-drop,
}
use mathlib.Core.List.{Perm}
use mathlib.Core.List.Perm
use minato.Api.GameSnapshot.{SnapshotEntry}
use minato.Controllers.Snapshot.Retention.{too_old, surplus, retain}

middle : {A : Type 0} (x : A) (xs ys : List A) → Perm (xs ++ x ∷ ys) (x ∷ xs ++ ys)
middle x [] ys = Perm.refl (x ∷ ys)
middle x (y ∷ xs) ys = Perm.trans (Perm.cons y (middle x xs ys)) (Perm.swap x y (xs ++ ys))

append_assoc : {A : Type 0} (xs ys zs : List A) → (xs ++ ys) ++ zs ≡ xs ++ (ys ++ zs)
append_assoc [] ys zs = refl
append_assoc (x ∷ xs) ys zs = ap (λ l. x ∷ l) (append_assoc xs ys zs)

filterb-splits :
    {A : Type 0} (p : A → Bool) (xs : List A)
    → Perm (filterb p xs ++ filterb (λ x. not (p x)) xs) xs
filterb-splits p [] = Perm.refl []
filterb-splits p (x ∷ xs) = elim (Bool-cases (p x)) [
  | inl passes ↦ rw passes (Perm.cons x (filterb-splits p xs))
  | inr fails ↦ rw fails (
      Perm.trans (middle x (filterb p xs) (filterb (λ y. not (p y)) xs))
        (Perm.cons x (filterb-splits p xs)))
]

take-drop : {A : Type 0} (n : ℕ) (xs : List A) → take n xs ++ drop n xs ≡ xs
take-drop zero xs = refl
take-drop (suc n) [] = refl
take-drop (suc n) (x ∷ xs) = ap (λ l. x ∷ l) (take-drop n xs)

All-false :
    {A : Type 0} (p : A → Bool) (xs : List A) → All (λ x. p x ≡ false) (filterb (λ x. not (p x)) xs)
All-false p [] = tt
All-false p (x ∷ xs) = elim (Bool-cases (p x)) [
  | inl passes ↦ rw passes (All-false p xs)
  | inr fails ↦ rw fails (fails, All-false p xs)
]

filterb-All : {A : Type 0} (p : A → Bool) (xs : List A) → All (λ x. p x ≡ true) (filterb p xs)
filterb-All p [] = tt
filterb-All p (x ∷ xs) = elim (Bool-cases (p x)) [
  | inl passes ↦ rw passes (passes, filterb-All p xs)
  | inr fails ↦ rw fails (filterb-All p xs)
]

retain-Perm :
    (limit : Option ℤ) (count : ℤ) (entries : List SnapshotEntry)
    → Perm ((retain limit count entries).1 ++ (retain limit count entries).0) entries
unfolding retain
retain-Perm limit count entries =
    let young = filterb (λ e. not (too_old limit e)) entries in
    let over = surplus count (length young) in
    rw
      (
        append_assoc (filterb (too_old limit) entries) (take over young) (drop over young),
        take-drop over young,
      )
      (filterb-splits (too_old limit) entries)

retain_count :
    (limit : Option ℤ) (n : ℕ) (entries : List SnapshotEntry)
    → length (retain limit (pos (suc n)) entries).0 ≤ suc n
unfolding retain surplus
retain_count limit n entries = omega (arith, length-drop {A = SnapshotEntry})

retain_young :
    (limit : Option ℤ) (count : ℤ) (entries : List SnapshotEntry)
    → All (λ e. too_old limit e ≡ false) (retain limit count entries).0
unfolding retain
retain_young limit count entries = All-drop _ _ _ (All-false (too_old limit) entries)

-- Retention keeps or deletes each entry exactly once, duplicates counted; with a positive count it
-- keeps at most that many, and none that is older than the cutoff.
retain_splits :
    (limit : Option ℤ) (n : ℕ) (entries : List SnapshotEntry)
    → Perm
        ((retain limit (pos (suc n)) entries).1 ++ (retain limit (pos (suc n)) entries).0)
        entries
      × (length (retain limit (pos (suc n)) entries).0 ≤ suc n)
      × All (λ e. too_old limit e ≡ false) (retain limit (pos (suc n)) entries).0
retain_splits limit n entries = (
  retain-Perm limit (pos (suc n)) entries,
  retain_count limit n entries,
  retain_young limit (pos (suc n)) entries,
)

-- The entries in the order of their creation, as the controller appends them.
abbrev pub IsChronological : List SnapshotEntry → Type 0
IsChronological [] = Unit
IsChronological (e ∷ es) = All (λ later. e.created_at ≤ later.created_at) es × IsChronological es

filterb-keeps :
    {A : Type 0} (P : A → Type 0) (p : A → Bool) (xs : List A) → All P xs → All P (filterb p xs)
filterb-keeps P p [] h = tt
filterb-keeps P p (x ∷ xs) h = elim (Bool-cases (p x)) [
  | inl passes ↦ rw passes (h.0, filterb-keeps P p xs h.1)
  | inr fails ↦ rw fails (filterb-keeps P p xs h.1)
]

filterb-IsChronological :
    (p : SnapshotEntry → Bool) (es : List SnapshotEntry)
    → IsChronological es
    → IsChronological (filterb p es)
filterb-IsChronological p [] h = tt
filterb-IsChronological p (e ∷ es) h = elim (Bool-cases (p e)) [
  | inl passes ↦ rw passes (filterb-keeps _ p es h.0, filterb-IsChronological p es h.1)
  | inr fails ↦ rw fails (filterb-IsChronological p es h.1)
]

-- `d` is no newer than any of the entries.
abbrev IsNoNewer : List SnapshotEntry → SnapshotEntry → Type 0
IsNoNewer es d = All (λ k. d.created_at ≤ k.created_at) es

take-IsNoNewer :
    (n : ℕ) (es : List SnapshotEntry) → IsChronological es → All (IsNoNewer (drop n es)) (take n es)
take-IsNoNewer zero es h = tt
take-IsNoNewer (suc n) [] h = tt
take-IsNoNewer (suc n) (e ∷ es) h = (All-drop _ n es h.0, take-IsNoNewer n es h.1)

old-IsNoNewer :
    (limit : Option ℤ) (d : SnapshotEntry) (es : List SnapshotEntry)
    → too_old limit d ≡ true
    → All (λ e. too_old limit e ≡ false) es
    → IsNoNewer es d
unfolding too_old
old-IsNoNewer limit d [] old young = tt
old-IsNoNewer none d (e ∷ es) old young = absurd (ground arith)
old-IsNoNewer (some limit) d (e ∷ es) old young =
    (ground arith, old-IsNoNewer (some limit) d es old young.1)

-- When the entries stand in the order of their creation, no deleted entry is newer than a kept one.
pub retain_newest :
    (limit : Option ℤ) (count : ℤ) (entries : List SnapshotEntry)
    → IsChronological entries
    → All
        (λ d. All (λ k. d.created_at ≤ k.created_at) (retain limit count entries).0)
        (retain limit count entries).1
unfolding retain
retain_newest limit count entries h =
    let young = filterb (λ e. not (too_old limit e)) entries in
    let over = surplus count (length young) in
    All-append _ (filterb (too_old limit) entries) (take over young)
      (All-map (filterb (too_old limit) entries)
        (λ d old.
          old-IsNoNewer limit d (drop over young) old
            (All-drop _ over young (All-false (too_old limit) entries)))
        (filterb-All (too_old limit) entries))
      (take-IsNoNewer over young (filterb-IsChronological _ entries h))
