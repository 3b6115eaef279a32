-- ===== src/Controllers/Fleet/Readiness.antt =====
-- What the Ready condition of a fleet says about the servers that were listed.
use minato.Prelude.{
  suc, pos, ◌≡◌, refl, ap, ◌↔◌, ◌≤◌, Bool, true, not, List, [], ◌∷◌, arith, length, All, filterb,
  Bool-cases, inl, inr,
}
use minato.Api.Meta.{condition_true}
use minato.Api.GameServer.{GameServer}
use minato.Api.Fleet.{GameServerFleet}
use minato.Controllers.Fleet.Template.{is_outdated}
use minato.Controllers.Fleet.Status.{ready_verdict, updated_count}

kept_count_le : {A : Type 0} (p : A → Bool) (xs : List A) → length (filterb p xs) ≤ length xs
kept_count_le p [] = omega arith
kept_count_le p (x ∷ xs) = ground (arith, kept_count_le p xs)

filterb-All :
    {A : Type 0} (p : A → Bool) (xs : List A)
    → length (filterb p xs) ≡ length xs
    → All (λ x. p x ≡ true) xs
filterb-All p [] h = tt
filterb-All p (x ∷ xs) h = elim (Bool-cases (p x)) [
  | inl y ↦ (y, filterb-All p xs (omega (arith, rw y at h)))
  | inr n ↦ absurd (omega (arith, kept_count_le p xs, rw n at h))
]

All-filterb :
    {A : Type 0} (p : A → Bool) (xs : List A)
    → All (λ x. p x ≡ true) xs
    → length (filterb p xs) ≡ length xs
All-filterb p [] h = refl
All-filterb p (x ∷ xs) h = rw h.0 (ap suc (All-filterb p xs h.1))

updated_count_le :
    (fleet : GameServerFleet) (servers : List GameServer)
    → updated_count fleet servers ≤ length servers
unfolding updated_count
updated_count_le fleet servers = kept_count_le (λ s. not (is_outdated fleet s)) servers

ready→counts :
    (fleet : GameServerFleet) (servers : List GameServer)
    → (ready_verdict fleet servers).0 ≡ condition_true
    → (fleet.spec.replicas ≡ pos (length servers)) × (updated_count fleet servers ≡ length servers)
unfolding ready_verdict
ready→counts fleet servers h = ground (arith, updated_count_le fleet servers)

counts→ready :
    (fleet : GameServerFleet) (servers : List GameServer)
    → fleet.spec.replicas ≡ pos (length servers)
    → updated_count fleet servers ≡ length servers
    → (ready_verdict fleet servers).0 ≡ condition_true
unfolding ready_verdict
counts→ready fleet servers r u = ground arith

-- The fleet is Ready exactly when as many servers were listed as are wanted and none of them is
-- outdated; the state of the servers plays no part.
ready_verdict_iff :
    (fleet : GameServerFleet) (servers : List GameServer)
    → ((ready_verdict fleet servers).0 ≡ condition_true) ↔ (
        (fleet.spec.replicas ≡ pos (length servers))
        × All (λ s. not (is_outdated fleet s) ≡ true) servers)
unfolding updated_count
ready_verdict_iff fleet servers = (
  λ h. (
    (ready→counts fleet servers h).0,
    filterb-All (λ s. not (is_outdated fleet s)) servers (ready→counts fleet servers h).1,
  ),
  λ h. counts→ready fleet servers h.0 (All-filterb (λ s. not (is_outdated fleet s)) servers h.1),
)
