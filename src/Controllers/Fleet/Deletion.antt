-- ===== src/Controllers/Fleet/Deletion.antt =====
-- Which servers a scale-down deletes.
use minato.Prelude.{
  ℕ, zero, suc, ◌+◌, ◌-◌, ◌≤◌, ◌<◌, pos, negsuc, ◌≡◌, refl, ◌≢◌, String, false, none, some, List,
  ◌++◌, Memᴰ, str_eq, eq_iff, arith, length, take, drop, length-drop, take-append-drop, sub_i32,
  of_len,
}
use mathlib.Core.List.{Perm}
use minato.Api.GameServer.{GameServer}
use minato.Controllers.Fleet.Selection.{
  before, sort_slice, slice_to, first_excess, select_servers_to_delete,
}
use minato.Controllers.Fleet.Order.{
  before_asym, before_le_trans, sort_slice-perm, length-sort_slice, sort_slice-IsOrdered,
  IsOrdered-take-drop,
}

excess-eq : (n d : ℕ) → d ≤ n → n < 2147483648 → sub_i32 (of_len n) (pos d) ≡ pos (n - d)
excess-eq n d le small = ground arith

first_excess-eq :
    {A : Type 0} (e : ℕ) (xs : List A) → e ≤ length xs → first_excess (pos e) xs ≡ some (take e xs)
unfolding first_excess slice_to
first_excess-eq zero xs h = refl
first_excess-eq (suc e) xs h = ground arith

-- A scale-down to `d` of at most `length servers` servers, under any strategy but OnDelete, splits the
-- servers in two: those to delete, as many as there are too many, and `d` to keep; and no kept server
-- comes before a deleted one in the order of players, age and name.
pub select_splits :
    (servers : List GameServer) (d : ℕ) (strategy : String)
    → strategy ≢ "OnDelete"
    → d ≤ length servers
    → length servers < 2147483648
    → (chosen : List GameServer) × (kept : List GameServer) × (select_servers_to_delete servers
          (pos d)
          strategy
        ≡ some chosen)
      × Perm (chosen ++ kept) servers
      × (length kept ≡ d)
      × ((c k : GameServer) → Memᴰ c chosen → Memᴰ k kept → before k c ≡ false)
unfolding select_servers_to_delete
select_splits servers d strategy n le small =
    let sorted = sort_slice before servers in
    let e = length servers - d in
    let fits : e ≤ length sorted = omega (arith, length-sort_slice before servers) in
    (
      take e sorted,
      drop e sorted,
      rw (not_on_delete, excess-eq (length servers) d le small) (first_excess-eq e sorted fits),
      rw (take-append-drop e sorted) (sort_slice-perm before servers),
      omega (arith, length-drop e sorted, length-sort_slice before servers),
      λ c k m l.
          IsOrdered-take-drop before e sorted
            (sort_slice-IsOrdered before before_asym before_le_trans servers) m l,
    )
  where
    not_on_delete : str_eq strategy "OnDelete" ≡ false
    not_on_delete = ground (arith, eq_iff strategy "OnDelete")

-- A negative number of replicas, which no validation refuses, asks for more servers than there are:
-- the slice expression panics, unless the difference leaves the range of int32.
select_negative_panics :
    (servers : List GameServer) (n : ℕ) (strategy : String)
    → strategy ≢ "OnDelete"
    → length servers + suc n < 2147483648
    → select_servers_to_delete servers (negsuc n) strategy ≡ none
unfolding select_servers_to_delete first_excess slice_to
select_negative_panics servers n strategy ne small =
    ground (arith, eq_iff strategy "OnDelete", length-sort_slice before servers)
