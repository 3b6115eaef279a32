-- ===== src/Controllers/Deletions.antt =====
-- The loops by which gameserver_controller.go and gameserverfleet_controller.go delete the objects of a
-- resource before they release it: the first error ends them, and an object that is missing is none.
use minato.Prelude.{
  ◌≡◌, refl, sym, ap, subst, ◌⊎◌, inl, inr, false, Option, none, some, List, [], ◌∷◌, ◌++◌,
  Option-cases, Bool-cases,
}
use minato.Cluster.{ApiErr, IsGone, is_not_found}

module _ {C R : Type 0} (call : R → C) where
  -- The calls for these objects, one after the other, onto those made before.
  abbrev pub deletions : List R → List C → List C
  deletions [] t = t
  deletions (r ∷ rs) t = deletions rs (call r ∷ t)

-- What is deleted, by which call, and how the API server answers it.
module _ {C R : Type 0} (call : R → C) (answer : List C → R → Option ApiErr) where
  -- Each of these deletions succeeds, or finds its object missing.
  abbrev pub AreGone : List R → List C → Type 0
  AreGone [] t = Unit
  AreGone (r ∷ rs) t = IsGone (answer t r) × AreGone rs (call r ∷ t)

  -- The deletion of one of these objects is the first that fails, by this error, and the last call.
  abbrev pub IsHeld : List R → List C → ApiErr → List C → Type 0
  IsHeld rs t e log =
      (done : List R) × (r : R) × (left : List R) × (rs ≡ done ++ (r ∷ left))
      × AreGone done t
      × (answer (deletions call done t) r ≡ some e)
      × (is_not_found e ≡ false)
      × (log ≡ call r ∷ deletions call done t)

  abbrev pub Deletes : List R → List C → Option ApiErr × List C → Type 0
  Deletes rs t (none, log) = AreGone rs t × (log ≡ deletions call rs t)
  Deletes rs t (some e, log) = IsHeld rs t e log

  answer-cases :
      (r : R) (t : List C)
      → IsGone (answer t r) ⊎ ((e : ApiErr) × (answer t r ≡ some e) × (is_not_found e ≡ false))
  answer-cases r t = elim (Option-cases (answer t r)) [
    | inl h ↦ inl (subst IsGone (sym h) tt)
    | inr (e, h) ↦ elim (Bool-cases (is_not_found e)) [
      | inl missing ↦ inl (subst IsGone (sym h) missing)
      | inr other ↦ inr (e, h, other)
    ]
  ]

  Deletes-cons :
      (r : R) (rs : List R) (t : List C) (result : Option ApiErr × List C)
      → IsGone (answer t r)
      → Deletes rs (call r ∷ t) result
      → Deletes (r ∷ rs) t result
  Deletes-cons r rs t (none, log) gone (h, e) = ((gone, h), e)
  Deletes-cons r rs t (some x, log) gone (done, s, left, split, h, e, kind, f) =
      (r ∷ done, s, left, ap (λ ss. r ∷ ss) split, (gone, h), e, kind, f)

  -- A loop with these three rounds.
  module _ (loop : List R → List C → Option ApiErr × List C)
      (ended : (t : List C) → loop [] t ≡ (none, t))
      (goes_on : (r : R) (rs : List R) (t : List C)
        → IsGone (answer t r)
        → loop (r ∷ rs) t ≡ loop rs (call r ∷ t))
      (stops : (r : R) (rs : List R) (t : List C) (e : ApiErr)
        → answer t r ≡ some e
        → is_not_found e ≡ false
        → loop (r ∷ rs) t ≡ (some e, call r ∷ t)) where
    pub loop-Deletes : (rs : List R) (t : List C) → Deletes rs t (loop rs t)
    loop-Deletes [] t = subst (Deletes [] t) (sym (ended t)) (tt, refl)
    loop-Deletes (r ∷ rs) t = elim (answer-cases r t) [
      | inl gone ↦
          subst (Deletes (r ∷ rs) t) (sym (goes_on r rs t gone))
            (Deletes-cons r rs t (loop rs (call r ∷ t)) gone (loop-Deletes rs (call r ∷ t)))
      | inr (e, h, other) ↦
          subst (Deletes (r ∷ rs) t) (sym (stops r rs t e h other))
            ([], r, rs, refl, tt, h, other, refl)
    ]
