-- ===== src/Api/Meta.antt =====
-- The parts of the Kubernetes object model that the resources embed: object metadata, conditions
-- and string maps. Timestamps are nanoseconds, with 0 for Go's zero time.
use minato.Prelude.{
  ℕ, ◌≡◌, refl, String, Bool, true, false, Option, none, some, List, [], ◌∷◌, str_eq, eq_iff, arith,
  if◌then◌else◌,
}

-- A Go `map[string]V`. Reads and writes go by key; the order of the pairs is the order in which a
-- `range` loop visits the map, which Go leaves open.
-- `map[string]V`: the entries by name, in the order of their insertion.
abbrev pub Entries : Type 0 → Type 0
Entries V = List (String × V)

module _ {V : Type 0} where
  -- `m[name]`, with whether it is there.
  unfoldable pub lookup : String → Entries V → Option V
  lookup name [] = none
  lookup name (entry ∷ rest) = if str_eq entry.0 name then some entry.1 else lookup name rest

  -- `m[name] = value`.
  unfoldable pub insert : String → V → Entries V → Entries V
  insert name value [] = (name, value) ∷ []
  insert name value (entry ∷ rest) =
      let later = insert name value rest in
      if str_eq entry.0 name then (name, value) ∷ rest else entry ∷ later

  -- `maps.Copy(dst, src)`.
  unfoldable pub copy_into : Entries V → Entries V → Entries V
  copy_into dst [] = dst
  copy_into dst (entry ∷ rest) = copy_into (insert entry.0 entry.1 dst) rest

  pub lookup-insert :
      (name other : String) (value : V) (entries : Entries V)
      → lookup other (insert name value entries)
        ≡ (if str_eq name other then some value else lookup other entries)
  unfolding lookup insert
  lookup-insert name other value [] = refl
  lookup-insert name other value (entry ∷ rest) = grind (
    arith,
    eq_iff entry.0 name,
    eq_iff name other,
    eq_iff entry.0 other,
    lookup-insert name other value rest,
  )

abbrev pub StringMap : Type 0
StringMap = Entries String

-- `m[k]` on a string map: the empty string where the key is missing.
unfoldable pub label : String → StringMap → String
unfolding lookup
label k m = elim (lookup k m) [ none ↦ "" | some v ↦ v ]

pub record ObjectMeta : Type 0 where
  pub name : String
  pub namespace : String
  pub generation : ℕ
  pub creation_timestamp : ℕ
  pub deletion_timestamp : ℕ
  pub finalizers : List String
  pub labels : StringMap
  pub annotations : StringMap

unfoldable pub contains_finalizer : String → List String → Bool
contains_finalizer f [] = false
contains_finalizer f (g ∷ gs) = if str_eq g f then true else contains_finalizer f gs

-- `controllerutil.AddFinalizer`.
unfoldable pub add_finalizer : String → List String → List String
add_finalizer f [] = f ∷ []
add_finalizer f (g ∷ gs) = if str_eq g f then g ∷ gs else g ∷ add_finalizer f gs

-- `controllerutil.RemoveFinalizer`.
unfoldable pub remove_finalizer : String → List String → List String
remove_finalizer f [] = []
remove_finalizer f (g ∷ gs) =
    let rest = remove_finalizer f gs in if str_eq g f then rest else g ∷ rest

pub remove_finalizer-contains :
    (f : String) (fs : List String) → contains_finalizer f (remove_finalizer f fs) ≡ false
unfolding contains_finalizer remove_finalizer
remove_finalizer-contains f [] = refl
remove_finalizer-contains f (g ∷ gs) = ground (arith, remove_finalizer-contains f gs)

pub data ConditionStatus : Type 0 where
  condition_true condition_false condition_unknown : ConditionStatus

pub record Condition : Type 0 where
  pub type : String
  pub status : ConditionStatus
  pub reason : String
  pub message : String
  pub observed_generation : ℕ
  pub last_transition_time : ℕ
