-- ===== src/Controllers/Conditions.antt =====
-- `setCondition` of internal/controllers/gameserver_controller.go, which every reconciler writes its
-- status conditions with, and what it keeps of the list.
use minato.Prelude.{
  ◌≡◌, refl, ◌≢◌, String, Bool, Option, none, some, List, [], ◌∷◌, str_eq, eq_iff, arith,
  if◌then◌else◌, All, Bool-cases, inl, inr, sym,
}
use minato.Api.Meta.{Condition, ConditionStatus, condition_true, condition_false}

unfoldable pub bool_to_condition_status : Bool → ConditionStatus
bool_to_condition_status b = if b then condition_true else condition_false

unfoldable pub set_condition : List Condition → Condition → List Condition
set_condition [] c = c ∷ []
set_condition (x ∷ xs) c = if str_eq x.type c.type then c ∷ xs else x ∷ set_condition xs c

-- The condition of a type, as a reader of the status finds it.
abbrev pub find_condition : String → List Condition → Option Condition
find_condition t [] = none
find_condition t (x ∷ xs) = if str_eq x.type t then some x else find_condition t xs

-- No two conditions have one type: the API server keys the list by it.
abbrev pub HasDistinctTypes : List Condition → Type 0
HasDistinctTypes [] = Unit
HasDistinctTypes (x ∷ xs) = All (λ y. y.type ≢ x.type) xs × HasDistinctTypes xs

-- After a write a reader finds the new condition under its type, and under any other type what was
-- there before.
pub find_condition-set_condition :
    (t : String) (c : Condition) (cs : List Condition)
    → find_condition t (set_condition cs c)
      ≡ (if str_eq c.type t then some c else find_condition t cs)
unfolding set_condition
find_condition-set_condition t c [] = refl
find_condition-set_condition t c (x ∷ xs) = ground (
  arith,
  eq_iff c.type t,
  eq_iff x.type c.type,
  eq_iff x.type t,
  find_condition-set_condition t c xs,
)

set_condition-All_ne :
    (t : String) (c : Condition) (cs : List Condition)
    → c.type ≢ t
    → All (λ y. y.type ≢ t) cs
    → All (λ y. y.type ≢ t) (set_condition cs c)
unfolding set_condition
set_condition-All_ne t c [] n h = (n, tt)
set_condition-All_ne t c (x ∷ xs) n h = elim (Bool-cases (str_eq x.type c.type)) [
  | inl same ↦ rw same (n, h.1)
  | inr other ↦ rw other (h.0, set_condition-All_ne t c xs n h.1)
]

-- A write keeps the types distinct.
set_condition-HasDistinctTypes :
    (c : Condition) (cs : List Condition)
    → HasDistinctTypes cs
    → HasDistinctTypes (set_condition cs c)
unfolding set_condition
set_condition-HasDistinctTypes c [] h = (tt, tt)
set_condition-HasDistinctTypes c (x ∷ xs) h = elim (Bool-cases (str_eq x.type c.type)) [
  | inl same ↦ rw same (rw (sym ((eq_iff x.type c.type).0 same)) h)
  | inr other ↦ rw other (
    set_condition-All_ne x.type c xs (λ e. cc ((eq_iff x.type c.type).1 (sym e))) h.0,
    set_condition-HasDistinctTypes c xs h.1,
  )
]
