-- ===== src/Handlers/Frames.antt =====
-- What the two loops of a console pass on, in whatever order they run, cmd/controlplane/console.go.
use minato.Prelude.{
  ℕ, ◌+◌, ◌≤◌, ◌≡◌, refl, sym, subst, ap, ◌∙◌, inl, inr, true, false, Bool-cases, Option, none,
  some, List, [], ◌∷◌, ◌++◌, length, arith, if◌then◌else◌,
}
use minato.Cluster.{ApiErr, Outcome, ok, fail}
use minato.Handlers.Console.{
  ConsoleMessage, FromAgent, forward, shown, Pump, pass_frame, turn, Proxy, Event, client_turn,
  agent_turn, pushed, proxy_step, started, proxy_run,
}

abbrev maybe_onto : {B : Type 0} → Option B → List B → List B
maybe_onto none bs = bs
maybe_onto (some b) bs = b ∷ bs

-- What a loop has to give for what it took.
abbrev pub translated : {A B : Type 0} → (A → Option B) → List A → List B
translated translate [] = []
translated translate (a ∷ rest) = maybe_onto (translate a) (translated translate rest)

-- At most the last frame was taken and not given, and none while the loop runs.
abbrev pub IsFaithful : {A B : Type 0} → (A → Option B) → Pump A B → Type 0
IsFaithful {B = B} translate p =
    (lost : List B) × (translated translate p.taken ≡ lost ++ p.given)
    × (length lost ≤ 1)
    × (p.is_open ≡ true → lost ≡ [])

abbrev pub open_loops : {A B : Type 0} → Pump A B → ℕ
open_loops p = if p.is_open then 1 else 0

module _ {A B : Type 0} (translate : A → Option B) where
  pass_frame-IsFaithful :
      (a : A) (o : Option B) (refused : Option ApiErr) (p : Pump A B)
      → translate a ≡ o
      → p.is_open ≡ true
      → IsFaithful translate p
      → IsFaithful translate (pass_frame a o refused p).0
  pass_frame-IsFaithful a none refused p h on (lost, e, small, whole) =
      (lost, ap (λ o. maybe_onto o (translated translate p.taken)) h ∙ e, small, whole)
  pass_frame-IsFaithful a (some b) none p h on (lost, e, small, whole) = (
    [],
    ap (λ o. maybe_onto o (translated translate p.taken)) h
        ∙ ap (λ bs. b ∷ bs) (e ∙ ap (λ l. l ++ p.given) (whole on)),
    omega arith,
    λ _. refl,
  )
  pass_frame-IsFaithful a (some b) (some x) p h on (lost, e, small, whole) = (
    b ∷ [],
    ap (λ o. maybe_onto o (translated translate p.taken)) h
        ∙ ap (λ bs. b ∷ bs) (e ∙ ap (λ l. l ++ p.given) (whole on)),
    omega arith,
    λ c. absurd (cc c),
  )

  pass_frame-open_loops :
      (a : A) (o : Option B) (refused : Option ApiErr) (p : Pump A B) (errors : List ApiErr)
      → p.is_open ≡ true
      → length (pushed (pass_frame a o refused p).1 errors)
          + open_loops (pass_frame a o refused p).0
        ≡ length errors + open_loops p
  pass_frame-open_loops a none refused p errors on = refl
  pass_frame-open_loops a (some b) none p errors on = refl
  pass_frame-open_loops a (some b) (some x) p errors on = ground arith

  open_turn :
      (a : A) (refused : Option ApiErr) (p : Pump A B)
      → p.is_open ≡ true
      → turn translate (ok a) refused p ≡ pass_frame a (translate a) refused p
  unfolding turn
  open_turn a refused p on =
      ap (λ b. if b then pass_frame a (translate a) refused p else (p, none)) on

  closed_turn :
      (a : A) (refused : Option ApiErr) (p : Pump A B)
      → p.is_open ≡ false
      → turn translate (ok a) refused p ≡ (p, none)
  unfolding turn
  closed_turn a refused p off =
      ap (λ b. if b then pass_frame a (translate a) refused p else (p, none)) off

  turn-IsFaithful :
      (r : Outcome A) (refused : Option ApiErr) (p : Pump A B)
      → IsFaithful translate p
      → IsFaithful translate (turn translate r refused p).0
  unfolding turn
  turn-IsFaithful (fail x) refused p (lost, e, small, whole) = elim (Bool-cases p.is_open) [
    | inl on ↦ rw (turn, on) (lost, e, small, λ c. absurd (cc c))
    | inr off ↦ rw (turn, off) (lost, e, small, λ c. absurd (cc c))
  ]
  turn-IsFaithful (ok a) refused p faithful = elim (Bool-cases p.is_open) [
    | inl on ↦
        subst (λ q. IsFaithful translate q.0) (sym (open_turn a refused p on))
          (pass_frame-IsFaithful a (translate a) refused p refl on faithful)
    | inr off ↦ subst (λ q. IsFaithful translate q.0) (sym (closed_turn a refused p off)) faithful
  ]

  turn-open_loops :
      (r : Outcome A) (refused : Option ApiErr) (p : Pump A B) (errors : List ApiErr)
      → length (pushed (turn translate r refused p).1 errors)
          + open_loops (turn translate r refused p).0
        ≡ length errors + open_loops p
  unfolding turn
  turn-open_loops (fail x) refused p errors = elim (Bool-cases p.is_open) [
    | inl on ↦ ground arith
    | inr off ↦ ground arith
  ]
  turn-open_loops (ok a) refused p errors = elim (Bool-cases p.is_open) [
    | inl on ↦
        ap (λ q. length (pushed q.1 errors) + open_loops q.0) (open_turn a refused p on)
        ∙ pass_frame-open_loops a (translate a) refused p errors on
    | inr off ↦ rw (turn, off) refl
  ]

abbrev pub from_agent : FromAgent × ℕ → Option ConsoleMessage
from_agent a = some (shown a)

-- The invariant of the two loops.
abbrev pub IsProxied : Proxy → Type 0
IsProxied p =
    IsFaithful forward p.to_agent
    × IsFaithful from_agent p.to_client
    × (length p.errors + open_loops p.to_agent + open_loops p.to_client ≡ 2)

proxy_step-IsProxied : (e : Event) (p : Proxy) → IsProxied p → IsProxied (proxy_step e p)
unfolding proxy_step
proxy_step-IsProxied (client_turn r refused) p (sent, seen, two) = (
  turn-IsFaithful forward r refused p.to_agent sent,
  seen,
  omega (arith, turn-open_loops forward r refused p.to_agent p.errors),
)
proxy_step-IsProxied (agent_turn r refused) p (sent, seen, two) = (
  sent,
  turn-IsFaithful from_agent r refused p.to_client seen,
  omega (arith, turn-open_loops from_agent r refused p.to_client p.errors),
)

proxy_run_from : (events : List Event) (p : Proxy) → IsProxied p → IsProxied (proxy_run events p)
unfolding proxy_run
proxy_run_from [] p inv = inv
proxy_run_from (e ∷ events) p inv =
    proxy_run_from events (proxy_step e p) (proxy_step-IsProxied e p inv)

-- In whatever order the two loops of a console take their turns, and wherever they fail: the agent got
-- the commands and pings that were read from the client, in their order, and the client got the
-- messages of the agent, in their order, in both cases but for at most the last one, which is missing
-- only where the loop has ended; and each loop that ended sent one error, so the channel of two holds
-- them all.
pub proxy_run-IsProxied : (events : List Event) → IsProxied (proxy_run events started)
proxy_run-IsProxied events =
    proxy_run_from events started
      (([], refl, omega arith, λ _. refl), ([], refl, omega arith, λ _. refl), omega arith)
