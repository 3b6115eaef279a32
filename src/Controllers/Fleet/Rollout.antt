-- ===== src/Controllers/Fleet/Rollout.antt =====
-- How far a rolling update gets in one reconcile.
use minato.Prelude.{
  ℕ, ◌-◌, ◌≤◌, ◌<◌, pos, ◌≡◌, refl, Bool, none, List, [], ◌∷◌, arith, length, filterb, length-take,
  min, sub_i32, of_len,
}
use minato.Api.GameServer.{GameServer}
use minato.Api.Fleet.{GameServerFleet}
use minato.Controllers.Fleet.Template.{is_outdated, max_unavailable, max_unavailable_of, rounds}
use minato.Controllers.Fleet.Selection.{update_before, sort_slice, servers_to_update}
use minato.Controllers.Fleet.Order.{length-sort_slice}

abbrev pub outdated : GameServerFleet → List GameServer → List GameServer
outdated fleet servers = filterb (is_outdated fleet) servers

length-filterb_le : {A : Type 0} (p : A → Bool) (xs : List A) → length (filterb p xs) ≤ length xs
length-filterb_le p [] = omega arith
length-filterb_le p (x ∷ xs) = ground (arith, length-filterb_le p xs)

slots-eq : (m n : ℕ) → m < 2147483648 → n < 2147483648 → rounds (sub_i32 (pos m) (of_len n)) ≡ m - n
slots-eq m n hm hn = ground arith

-- One rolling update writes as many servers as `maxUnavailable` exceeds the number of outdated
-- servers by, and no more than there are: none while at least `maxUnavailable` are outdated.
length-servers_to_update :
    (fleet : GameServerFleet) (servers : List GameServer) (m : ℕ)
    → max_unavailable fleet ≡ pos m
    → m < 2147483648
    → length servers < 2147483648
    → length (servers_to_update fleet servers)
      ≡ min (m - length (outdated fleet servers)) (length (outdated fleet servers))
unfolding servers_to_update
length-servers_to_update fleet servers m e hm hn =
    rw (e, slots-eq m (length (outdated fleet servers)) hm small)
      (omega (
        arith,
        length-take (m - length (outdated fleet servers))
            (sort_slice update_before (outdated fleet servers)),
        length-sort_slice update_before (outdated fleet servers),
      ))
  where
    small : length (outdated fleet servers) < 2147483648
    small = omega (arith, length-filterb_le (is_outdated fleet) servers)

nil_of_length : {A : Type 0} (xs : List A) → length xs ≡ 0 → xs ≡ []
nil_of_length [] h = refl
nil_of_length (x ∷ xs) h = absurd (omega arith)

-- With the default of one unavailable server a rolling update never writes a server: an outdated one
-- already uses up the slot in which it would be updated.
pub default_never_updates :
    (fleet : GameServerFleet) (servers : List GameServer)
    → fleet.spec.update_strategy.rolling_update ≡ none
    → length servers < 2147483648
    → servers_to_update fleet servers ≡ []
unfolding max_unavailable
default_never_updates fleet servers e small = nil_of_length (servers_to_update fleet servers) (
    omega (
      arith,
      length-servers_to_update fleet servers 1 (rw (e, max_unavailable_of)) (omega arith) small,
    ))
