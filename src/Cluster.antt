-- ===== src/Cluster.antt =====
-- The Kubernetes API server as the controllers see it. The server is not part of the repository: its
-- answers are parameters, functions of the calls made so far, so that any server, any failure and any
-- change by another client between two calls is covered. A controller is a program that makes calls:
-- it takes the calls made so far, newest first, and returns its result and the longer list.
use minato.Prelude.{
  ℕ, String, Bool, true, false, Option, none, some, List, ◌∷◌, ◌≡◌, refl, ◌⊎◌, inl, inr,
}

-- What the code asks of an error: `apierrors.IsNotFound`, `apierrors.IsAlreadyExists`, `err.Error()`.
pub data ApiErr : Type 0 where
  not_found : String → ApiErr
  already_exists : String → ApiErr
  other : String → ApiErr

abbrev pub is_not_found : ApiErr → Bool
is_not_found (not_found _) = true
is_not_found _ = false

abbrev pub is_already_exists : ApiErr → Bool
is_already_exists (already_exists _) = true
is_already_exists _ = false

abbrev pub message : ApiErr → String
message (not_found m) = m
message (already_exists m) = m
message (other m) = m

-- A Go pair `(value, error)`.
pub data Outcome (A : Type 0) : Type 0 where
  ok : A → Outcome A
  fail : ApiErr → Outcome A

pub Outcome-cases :
    {A : Type 0} (o : Outcome A) → ((a : A) × o ≡ ok a) ⊎ ((e : ApiErr) × o ≡ fail e)
Outcome-cases (ok a) = inl (a, refl)
Outcome-cases (fail e) = inr (e, refl)

-- The answer to a deletion where the object is gone after it: no error, or it was not found.
abbrev pub IsGone : Option ApiErr → Type 0
IsGone none = Unit
IsGone (some e) = is_not_found e ≡ true

pub IsGone-cases :
    (answer : Option ApiErr)
    → IsGone answer
    → (answer ≡ none) ⊎ ((m : String) × (answer ≡ some (not_found m)))
IsGone-cases none gone = inl refl
IsGone-cases (some (not_found m)) gone = inr (m, refl)
IsGone-cases (some (already_exists m)) gone = absurd (cc gone)
IsGone-cases (some (other m)) gone = absurd (cc gone)

-- `types.NamespacedName`.
pub record Key : Type 0 where
  pub name : String
  pub namespace : String

abbrev pub key : String → String → Key
key name namespace = record { name = name; namespace = namespace }

-- `(ctrl.Result, error)`: done with `RequeueAfter` in nanoseconds, 0 for none, or an error, after
-- which the controller runtime calls again with backoff; or a panic of the Go code.
pub data Reconciled : Type 0 where
  requeue : ℕ → Reconciled
  errored : String → Reconciled
  panicked : Reconciled

abbrev pub done : Reconciled
done = requeue 0

-- A program over the calls `C`.
abbrev pub M : Type 0 → Type 0 → Type 0
M C A = List C → A × List C

infixl 5 ◌>>=◌ ◌>>◌
abbrev pub ◌>>=◌ : {C A B : Type 0} → M C A → (A → M C B) → M C B
◌>>=◌ m f t = let (a, t') = m t in f a t'

abbrev pub ◌>>◌ : {C A B : Type 0} → M C A → M C B → M C B
◌>>◌ m k t = let (a, t') = m t in k t'

abbrev pub pure : {C A : Type 0} → A → M C A
pure a t = (a, t)

-- A call whose answer depends on the calls made before it.
abbrev pub ask : {C A : Type 0} → C → (List C → A) → M C A
ask c answer t = (answer t, c ∷ t)

-- A call whose answer the program drops.
abbrev pub tell : {C : Type 0} → C → M C (Unit {0})
tell c t = (tt, c ∷ t)

-- The clock reading after the calls made so far.
abbrev pub read_clock : {C : Type 0} → (List C → ℕ) → M C ℕ
read_clock clock t = (clock t, t)

-- `if apierrors.IsNotFound(err) { return ctrl.Result{}, nil }; return ctrl.Result{}, err`.
abbrev pub unless_not_found : ApiErr → Reconciled
unless_not_found (not_found _) = done
unless_not_found (already_exists m) = errored m
unless_not_found (other m) = errored m

-- `return ctrl.Result{}, err`, with a nil error where there is none.
abbrev pub of_error : Option ApiErr → Reconciled
of_error none = done
of_error (some e) = errored (message e)
