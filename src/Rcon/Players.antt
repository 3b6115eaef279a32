-- ===== src/Rcon/Players.antt =====
-- The players that a server lists, sdk/agent/rcon/palworld.go and source.go. The counts of Minecraft and
-- Source, which `fmt.Sscanf` reads, are left out.
use minato.Prelude.{
  ℕ, suc, ◌≤◌, ◌==◌, ℤ, pos, Bool, not, ◌||◌, ◌&&◌, Option, none, some, List, [], ◌∷◌,
  if◌then◌else◌, length, codes, Bytes, is_nil, includes, trim_space, split, has_prefix, atoi,
  cut_prefix, arith,
}
use minato.Agent.Steps.{fields}

abbrev newline : ℕ
newline = 10

-- A line that lists no player: empty, or the header.
unfoldable pub is_header : Bytes → Bool
is_header line = is_nil line || includes line (codes "name")

unfoldable pub count_players : List Bytes → ℕ
unfolding is_header
count_players [] = 0
count_players (line ∷ lines) =
    let rest = count_players lines in if is_header (trim_space line) then rest else suc rest

-- The number online; the capacity is always 0.
unfoldable pub parse_palworld_player_count : Bytes → ℕ × ℕ
unfolding count_players
parse_palworld_player_count output = (count_players (split newline output), 0)

abbrev first_of : List Bytes → Bytes
first_of [] = []
first_of (x ∷ xs) = x

unfoldable pub name_players : List Bytes → List Bytes
unfolding is_header
name_players [] = []
name_players (line ∷ lines) =
    let rest = name_players lines in
    let name = first_of (split 44 (trim_space line)) in
    if is_header (trim_space line) || is_nil name then rest else name ∷ rest

unfoldable pub parse_palworld_player_list : Bytes → List Bytes
unfolding name_players
parse_palworld_player_list output = name_players (split newline output)

abbrev number_after : Bytes → Bytes → ℤ → ℤ
number_after line prefix old = elim (cut_prefix line prefix) [
  | none ↦ old
  | some after ↦ elim (atoi (trim_space after)) [ none ↦ old | some n ↦ n ]
]

-- The loop over the lines, with the numbers found so far.
unfoldable pub read_info : List Bytes → ℤ → ℤ → ℤ × ℤ
read_info [] online capacity = (online, capacity)
read_info (line ∷ lines) online capacity =
    read_info lines (number_after (trim_space line) (codes "Online Players:") online)
      (number_after (trim_space line) (codes "Max Players:") capacity)

unfoldable pub parse_palworld_player_count_from_info : Bytes → ℤ × ℤ
unfolding read_info
parse_palworld_player_count_from_info output = read_info (split newline output) (pos 0) (pos 0)

unfoldable pub format_palworld_broadcast : Bytes → Bytes
format_palworld_broadcast [] = []
format_palworld_broadcast (c ∷ s) = (if c == 32 then 95 else c) ∷ format_palworld_broadcast s

abbrev third_of : List Bytes → Option Bytes
third_of (a ∷ b ∷ c ∷ rest) = some c
third_of _ = none

abbrev maybe_onto : Option Bytes → List Bytes → List Bytes
maybe_onto none names = names
maybe_onto (some name) names = name ∷ names

unfoldable pub lists_player : Bytes → Bool
lists_player line = has_prefix line (codes "#") && not (includes line (codes "userid"))

unfoldable pub source_names : List Bytes → List Bytes
unfolding lists_player fields
source_names [] = []
source_names (line ∷ lines) =
    let rest = source_names lines in
    if lists_player (trim_space line)
    then maybe_onto (third_of (fields (trim_space line))) rest
    else rest

unfoldable pub parse_source_player_list : Bytes → List Bytes
unfolding source_names
parse_source_player_list output = source_names (split newline output)

length-name_players : (lines : List Bytes) → length (name_players lines) ≤ count_players lines
unfolding name_players count_players
length-name_players [] = omega arith
length-name_players (line ∷ lines) = ground (arith, length-name_players lines)
