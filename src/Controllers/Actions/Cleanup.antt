-- ===== src/Controllers/Actions/Cleanup.antt =====
-- ActionExecutionCleanupTask, internal/controllers/actionexecution_cleanup.go: the rounds of the cleanup,
-- and which executions one of them deletes.
use minato.Prelude.{
  ℕ, ◌+◌, ◌-◌, ◌<◌, ◌≡◌, ◌↔◌, refl, Bool, true, false, not, Option, none, some, List, [], ◌∷◌, Memᴰ,
  arith, ltb, if◌then◌else◌, ◌⊎◌, inl, inr, Option-cases, not-Memᴰ-nil, Bool-cases, sym, ap, subst,
}
use minato.Cluster.{Outcome, ok, fail, ApiErr, Key, key, M, ◌>>=◌, ◌>>◌, pure, ask, read_clock}
use minato.Api.ActionExecution.{ActionExecution, ActionExecutionState, succeeded}
use minato.Controllers.Actions.Model.{is_terminal}

pub data Call : Type 0 where
  list_all : Call
  delete_execution : Key → Call

pub record World : Type 0 where
  pub executions : List Call → Outcome (List ActionExecution)
  pub clock : List Call → ℕ

-- Seven and thirty days in nanoseconds.
abbrev pub success_ttl : ℕ
success_ttl = 604800000000000

abbrev pub failed_ttl : ℕ
failed_ttl = 2592000000000000

abbrev pub ttl : ActionExecutionState → ℕ
ttl succeeded = success_ttl
ttl _ = failed_ttl

abbrev pub execution_key : ActionExecution → Key
execution_key exec = key exec.metadata.name exec.metadata.namespace

-- The guards of the loop body: ended, with an end time, longer ago than its time to live.
unfoldable pub is_expired : ℕ → ActionExecution → Bool
is_expired now exec =
    if not (is_terminal exec.status.state) then false else elim exec.status.ended_at [
      | none ↦ false
      | some ended ↦ ltb (ttl exec.status.state) (now - ended)
    ]

-- The loop; the error of a deletion is logged and dropped.
unfoldable pub sweep : ℕ → List ActionExecution → M Call (Unit {0})
sweep now [] t = (tt, t)
sweep now (exec ∷ rest) t =
    sweep now rest (if is_expired now exec then delete_execution (execution_key exec) ∷ t else t)

unfoldable pub cleanup : World → M Call (Option ApiErr)
cleanup w = do
  listed ← ask list_all w.executions
  now ← read_clock w.clock
  elim listed [ fail e ↦ pure (some e) | ok items ↦ do sweep now items; pure none ]

-- `Start`, which logs the error of a round: the list says of each turn of its loop whether the context
-- was done.
unfoldable pub start : World → List Bool → M Call (Unit {0})
unfolding cleanup
start w [] = pure tt
start w (true ∷ turns) = pure tt
start w (false ∷ turns) = do e ← cleanup w; start w turns

-- The keys deleted, newest first.
abbrev pub deleted : List Call → List Key
deleted [] = []
deleted (delete_execution k ∷ t) = k ∷ deleted t
deleted (list_all ∷ t) = deleted t

-- An execution that ended, and did so longer ago than the time to live of its state.
abbrev pub Expired : ℕ → ActionExecution → Type 0
Expired now exec =
    (is_terminal exec.status.state ≡ true)
    × ((ended : ℕ) × (exec.status.ended_at ≡ some ended) × (ended + ttl exec.status.state < now))

end_of_is_expired :
    (now : ℕ) (exec : ActionExecution) → is_expired now exec ≡ true → Expired now exec
unfolding is_expired
end_of_is_expired now exec h = elim (Option-cases exec.status.ended_at) [
  | inl e ↦ absurd (ground arith)
  | inr (ended, e) ↦ (ground arith, (ended, e, ground arith))
]

is_expired_of_end :
    (now : ℕ) (exec : ActionExecution) → Expired now exec → is_expired now exec ≡ true
unfolding is_expired
is_expired_of_end now exec (t, (ended, e, l)) = ground arith

-- A key that is deleted in the sweep was there before, or is that of an expired execution.
abbrev Origin : ℕ → List ActionExecution → List Call → Key → Type 0
Origin now items t k =
    ((o : ActionExecution) × Memᴰ o items × Expired now o × (execution_key o ≡ k))
    ⊎ Memᴰ k (deleted t)

sweep_sound :
    (now : ℕ) (items : List ActionExecution) (t : List Call) (k : Key)
    → Memᴰ k (deleted (sweep now items t).1)
    → Origin now items t k
unfolding sweep
sweep_sound now [] t k m = inr m
sweep_sound now (exec ∷ rest) t k m =
    elim (sweep_sound now rest
      (if is_expired now exec then delete_execution (execution_key exec) ∷ t else t) k m) [
        | inl (o, mo, x, e) ↦ inl (o, Memᴰ.tail mo, x, e)
        | inr old ↦ elim (Bool-cases (is_expired now exec)) [
          | inl x ↦ from_here x (rw x at old)
          | inr x ↦ inr (rw x at old)
        ]
      ]
  where
    from_here :
        is_expired now exec ≡ true
        → Memᴰ k (execution_key exec ∷ deleted t)
        → Origin now (exec ∷ rest) t k
    from_here x (Memᴰ.head e) = inl (exec, Memᴰ.head refl, end_of_is_expired now exec x, sym e)
    from_here x (Memᴰ.tail m) = inr m

sweep_keeps :
    (now : ℕ) (items : List ActionExecution) (t : List Call) {k : Key}
    → Memᴰ k (deleted t)
    → Memᴰ k (deleted (sweep now items t).1)
unfolding sweep
sweep_keeps now [] t m = m
sweep_keeps now (exec ∷ rest) t {k} m =
    sweep_keeps now rest _ (step (Bool-cases (is_expired now exec)))
  where
    step :
        (is_expired now exec ≡ true) ⊎ (is_expired now exec ≡ false)
        → Memᴰ k
            (deleted (if is_expired now exec then delete_execution (execution_key exec) ∷ t else t))
    step (inl x) = rw x (Memᴰ.tail m)
    step (inr x) = rw x m

sweep_complete :
    (now : ℕ) (items : List ActionExecution) (t : List Call) {o : ActionExecution}
    → Memᴰ o items
    → Expired now o
    → Memᴰ (execution_key o) (deleted (sweep now items t).1)
unfolding sweep
sweep_complete now [] t m x = elim m [ ]
sweep_complete now (exec ∷ rest) t {o} (Memᴰ.tail m) x = sweep_complete now rest _ m x
sweep_complete now (exec ∷ rest) t {o} (Memᴰ.head e) x = sweep_keeps now rest _ (
    rw (subst (λ y. is_expired now y ≡ true) e (is_expired_of_end now o x))
      (Memᴰ.head (ap execution_key e)))

module _ (w : World) {items : List ActionExecution} (listed : w.executions [] ≡ ok items) where
  cleanup_sound :
      (k : Key)
      → Memᴰ k (deleted (cleanup w []).1)
      → (o : ActionExecution) × Memᴰ o items
        × Expired (w.clock (list_all ∷ [])) o
        × (execution_key o ≡ k)
  unfolding cleanup
  cleanup_sound k m =
      elim (sweep_sound (w.clock (list_all ∷ [])) items (list_all ∷ []) k (rw listed at m)) [
        | inl found ↦ found
        | inr old ↦ absurd (not-Memᴰ-nil old)
      ]

  cleanup_complete :
      (o : ActionExecution)
      → Memᴰ o items
      → Expired (w.clock (list_all ∷ [])) o
      → Memᴰ (execution_key o) (deleted (cleanup w []).1)
  unfolding cleanup
  cleanup_complete o m x =
      rw listed (sweep_complete (w.clock (list_all ∷ [])) items (list_all ∷ []) m x)

  -- A round of the cleanup asks for the deletion of exactly the listed executions that ended and
  -- outlived the time to live of their state: seven days after a success, thirty after any other end.
  deleted-cleanup :
      (k : Key)
      → Memᴰ k (deleted (cleanup w []).1) ↔ (
          (o : ActionExecution) × Memᴰ o items
          × Expired (w.clock (list_all ∷ [])) o
          × (execution_key o ≡ k))
  deleted-cleanup k = (
    cleanup_sound k,
    λ (o, m, x, e). subst (λ y. Memᴰ y (deleted (cleanup w []).1)) e (cleanup_complete o m x),
  )
