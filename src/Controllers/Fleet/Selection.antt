-- ===== src/Controllers/Fleet/Selection.antt =====
-- The choice of the servers to delete and to update, in the order of the two `sort.Slice` calls of
-- internal/controllers/gameserverfleet_controller.go.
use minato.Prelude.{
  ℕ, zero, suc, ℤ, pos, negsuc, String, Bool, true, false, not, ◌&&◌, Option, none, some, List, [],
  ◌∷◌, str_eq, ◌==◌, ltb, ltb_ℤ, sub_i32, of_len, codes, if◌then◌else◌, length, take, filterb,
}
use minato.Api.GameServer.{GameServer}
use minato.Api.Fleet.{GameServerFleet}
use minato.Controllers.Fleet.Template.{is_outdated, max_unavailable, rounds}

-- `a < b` on Go strings, byte by byte.
unfoldable pub text_lt : List ℕ → List ℕ → Bool
text_lt s [] = false
text_lt [] (d ∷ t) = true
text_lt (c ∷ s) (d ∷ t) = let rest = text_lt s t in if c == d then rest else ltb c d

unfoldable pub eq_ℤ : ℤ → ℤ → Bool
eq_ℤ a b = not (ltb_ℤ a b) && not (ltb_ℤ b a)

-- The order of deletion: fewer players first, then older, then by name.
unfoldable pub before : GameServer → GameServer → Bool
unfolding eq_ℤ
before a b =
    if not (eq_ℤ a.status.players b.status.players)
    then ltb_ℤ a.status.players b.status.players
    else if not (a.metadata.creation_timestamp == b.metadata.creation_timestamp)
    then ltb a.metadata.creation_timestamp b.metadata.creation_timestamp
    else text_lt (codes a.metadata.name) (codes b.metadata.name)

-- The order of rolling updates, with no tie-breaker.
unfoldable pub update_before : GameServer → GameServer → Bool
unfolding eq_ℤ
update_before a b =
    if not (eq_ℤ a.status.players b.status.players)
    then ltb_ℤ a.status.players b.status.players
    else ltb a.metadata.creation_timestamp b.metadata.creation_timestamp

-- `sort.Slice` by `less`: an insertion sort stands for Go's, which may order equal elements otherwise.
module _ {A : Type 0} (less : A → A → Bool) where
  unfoldable pub insert_sorted : A → List A → List A
  insert_sorted x [] = x ∷ []
  insert_sorted x (y ∷ ys) = if less y x then y ∷ insert_sorted x ys else x ∷ y ∷ ys

  unfoldable pub sort_slice : List A → List A
  sort_slice [] = []
  sort_slice (x ∷ xs) = insert_sorted x (sort_slice xs)

-- `sorted[:excess]`: a bound past the length is a panic, `none`.
unfoldable pub slice_to : {A : Type 0} → ℕ → List A → Option (List A)
slice_to n xs = if ltb (length xs) n then none else some (take n xs)

-- `if excess <= 0 { return nil }; return sorted[:excess]`.
unfoldable pub first_excess : {A : Type 0} → ℤ → List A → Option (List A)
unfolding slice_to
first_excess (pos zero) sorted = some []
first_excess (negsuc n) sorted = some []
first_excess (pos (suc n)) sorted = slice_to (suc n) sorted

-- The servers to delete; `none` where the slice expression panics.
unfoldable pub select_servers_to_delete : List GameServer → ℤ → String → Option (List GameServer)
select_servers_to_delete servers desired strategy =
    if str_eq strategy "OnDelete"
    then some []
    else first_excess (sub_i32 (of_len (length servers)) desired) (sort_slice before servers)

-- The servers that one rolling update writes.
unfoldable pub servers_to_update : GameServerFleet → List GameServer → List GameServer
servers_to_update fleet servers =
    let outdated = filterb (is_outdated fleet) servers in
    take (rounds (sub_i32 (max_unavailable fleet) (of_len (length outdated))))
      (sort_slice update_before outdated)
