-- ===== src/Controllers/Fleet/Order.antt =====
-- The deletion order is total and transitive, and an insertion sort by such an order sorts.
use minato.Prelude.{
  ℕ, suc, ◌≡◌, refl, inl, inr, Bool, true, false, List, [], ◌∷◌, arith, codes, All, All-drop,
  All-Memᴰ, not-Memᴰ-nil, zero, Memᴰ, Bool-cases, take, drop, length,
}
use mathlib.Core.List.{Perm}
use mathlib.Core.List.Perm
use minato.Api.GameServer.{GameServer}
use minato.Controllers.Fleet.Selection.{text_lt, before, insert_sorted, sort_slice}

text_lt_asym : (s t : List ℕ) → text_lt s t ≡ true → text_lt t s ≡ false
unfolding text_lt
text_lt_asym [] [] h = refl
text_lt_asym [] (d ∷ t) h = refl
text_lt_asym (c ∷ s) [] h = ground arith
text_lt_asym (c ∷ s) (d ∷ t) h = ground (arith, text_lt_asym s t)

text_le_trans : (s t u : List ℕ) → text_lt t s ≡ false → text_lt u t ≡ false → text_lt u s ≡ false
unfolding text_lt
text_le_trans [] [] [] h k = refl
text_le_trans [] [] (e ∷ u) h k = refl
text_le_trans [] (d ∷ t) [] h k = refl
text_le_trans [] (d ∷ t) (e ∷ u) h k = refl
text_le_trans (c ∷ s) [] u h k = absurd (ground arith)
text_le_trans (c ∷ s) (d ∷ t) [] h k = absurd (ground arith)
text_le_trans (c ∷ s) (d ∷ t) (e ∷ u) h k = ground (arith, text_le_trans s t u)

pub before_asym : (a b : GameServer) → before a b ≡ true → before b a ≡ false
unfolding before
before_asym a b h = ground (arith, text_lt_asym (codes a.metadata.name) (codes b.metadata.name))

pub before_le_trans :
    (a b c : GameServer) → before b a ≡ false → before c b ≡ false → before c a ≡ false
unfolding before
before_le_trans a b c h k =
    ground
      (arith, text_le_trans (codes a.metadata.name) (codes b.metadata.name) (codes c.metadata.name))

-- Nothing is less than an element before it.
abbrev pub IsOrdered : {A : Type 0} → (A → A → Bool) → List A → Type 0
IsOrdered less [] = Unit
IsOrdered less (x ∷ xs) = All (λ y. less y x ≡ false) xs × IsOrdered less xs

module _ {A : Type 0} (less : A → A → Bool) where
  insert_sorted-perm : (x : A) (ys : List A) → Perm (insert_sorted less x ys) (x ∷ ys)
  unfolding insert_sorted
  insert_sorted-perm x [] = Perm.refl (x ∷ [])
  insert_sorted-perm x (y ∷ ys) = elim (Bool-cases (less y x)) [
    | inl lt ↦ rw lt (Perm.trans (Perm.cons y (insert_sorted-perm x ys)) (Perm.swap x y ys))
    | inr ge ↦ rw ge (Perm.refl (x ∷ y ∷ ys))
  ]

  pub sort_slice-perm : (xs : List A) → Perm (sort_slice less xs) xs
  unfolding sort_slice
  sort_slice-perm [] = Perm.refl []
  sort_slice-perm (x ∷ xs) =
      Perm.trans (insert_sorted-perm x (sort_slice less xs)) (Perm.cons x (sort_slice-perm xs))

  length-insert_sorted : (x : A) (ys : List A) → length (insert_sorted less x ys) ≡ suc (length ys)
  unfolding insert_sorted
  length-insert_sorted x [] = refl
  length-insert_sorted x (y ∷ ys) = ground (arith, length-insert_sorted x ys)

  pub length-sort_slice : (xs : List A) → length (sort_slice less xs) ≡ length xs
  unfolding sort_slice
  length-sort_slice [] = refl
  length-sort_slice (x ∷ xs) =
      omega (arith, length-insert_sorted x (sort_slice less xs), length-sort_slice xs)

  -- The first elements of an ordered list come before the rest.
  pub IsOrdered-take-drop :
      (n : ℕ) (xs : List A) {c k : A}
      → IsOrdered less xs
      → Memᴰ c (take n xs)
      → Memᴰ k (drop n xs)
      → less k c ≡ false
  IsOrdered-take-drop zero xs h m l = absurd (not-Memᴰ-nil m)
  IsOrdered-take-drop (suc n) [] h m l = absurd (not-Memᴰ-nil m)
  IsOrdered-take-drop (suc n) (x ∷ xs) {c} {k} h (Memᴰ.tail m) l = IsOrdered-take-drop n xs h.1 m l
  IsOrdered-take-drop (suc n) (x ∷ xs) {c} {k} h (Memᴰ.head e) l =
      rw e (All-Memᴰ _ (drop n xs) (All-drop _ n xs h.0) l)

  module _ (asym : (x y : A) → less x y ≡ true → less y x ≡ false)
      (trans : (x y z : A) → less y x ≡ false → less z y ≡ false → less z x ≡ false) where
    insert_sorted-All :
        (P : A → Type 0) (x : A) (ys : List A) → P x → All P ys → All P (insert_sorted less x ys)
    unfolding insert_sorted
    insert_sorted-All P x [] p h = (p, tt)
    insert_sorted-All P x (y ∷ ys) p h = elim (Bool-cases (less y x)) [
      | inl lt ↦ rw lt (h.0, insert_sorted-All P x ys p h.1)
      | inr ge ↦ rw ge (p, h)
    ]

    All-le :
        (x y : A) (zs : List A)
        → less y x ≡ false
        → All (λ z. less z y ≡ false) zs
        → All (λ z. less z x ≡ false) zs
    All-le x y [] le h = tt
    All-le x y (z ∷ zs) le h = (trans x y z le h.0, All-le x y zs le h.1)

    insert_sorted-IsOrdered :
        (x : A) (ys : List A) → IsOrdered less ys → IsOrdered less (insert_sorted less x ys)
    unfolding insert_sorted
    insert_sorted-IsOrdered x [] h = (tt, tt)
    insert_sorted-IsOrdered x (y ∷ ys) h = elim (Bool-cases (less y x)) [
      | inl lt ↦ rw lt (
        insert_sorted-All (λ z. less z y ≡ false) x ys (asym y x lt) h.0,
        insert_sorted-IsOrdered x ys h.1,
      )
      | inr ge ↦ rw ge ((ge, All-le x y ys ge h.0), h)
    ]

    pub sort_slice-IsOrdered : (xs : List A) → IsOrdered less (sort_slice less xs)
    unfolding sort_slice
    sort_slice-IsOrdered [] = tt
    sort_slice-IsOrdered (x ∷ xs) =
        insert_sorted-IsOrdered x (sort_slice less xs) (sort_slice-IsOrdered xs)
