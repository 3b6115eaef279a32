-- ===== src/Prelude/Strings.antt =====
-- Texts as lists of bytes, and the functions of Go's `strings` package that the program uses.
use Prim.Native.Nat.{ℕ, zero, suc, ◌+◌, ◌-◌, ◌*◌}
use mathlib.Core.Option
use mathlib.Core.Option.{Option, none, some}
use minato.Prelude.Int.{ℤ, pos, negsuc}
use mathlib.Core.Path.{◌≡◌, refl}
use mathlib.Core.Bool.{Bool, true, false, ◌&&◌, ◌||◌}
use mathlib.Core.List.{List, [], ◌∷◌, ◌++◌}
use native.Mathlib.Omega.{arith}
use minato.Prelude.Tests.{leb, ◌==◌, if◌then◌else◌}

abbrev pub Bytes : Type 0
Bytes = List ℕ

unfoldable pub bytes_eq : Bytes → Bytes → Bool
bytes_eq [] [] = true
bytes_eq [] (d ∷ t) = false
bytes_eq (c ∷ s) [] = false
bytes_eq (c ∷ s) (d ∷ t) = c == d && bytes_eq s t

pub bytes_eq-eq : (s t : Bytes) → bytes_eq s t ≡ true → s ≡ t
unfolding bytes_eq
bytes_eq-eq [] [] h = refl
bytes_eq-eq [] (d ∷ t) h = absurd (ground arith)
bytes_eq-eq (c ∷ s) [] h = absurd (ground arith)
bytes_eq-eq (c ∷ s) (d ∷ t) h = ground (arith, bytes_eq-eq s t)

pub bytes_eq_refl : (s : Bytes) → bytes_eq s s ≡ true
unfolding bytes_eq
bytes_eq_refl [] = refl
bytes_eq_refl (c ∷ s) = ground (arith, bytes_eq_refl s)

-- `strings.HasPrefix`.
unfoldable pub has_prefix : Bytes → Bytes → Bool
has_prefix s [] = true
has_prefix [] (c ∷ p) = false
has_prefix (d ∷ s) (c ∷ p) = d == c && has_prefix s p

-- `strings.HasSuffix` with a suffix of one byte.
unfoldable pub ends_with : Bytes → ℕ → Bool
ends_with [] c = false
ends_with (d ∷ []) c = d == c
ends_with (d ∷ e ∷ s) c = ends_with (e ∷ s) c

-- All but the last byte: `strings.TrimSuffix` where the suffix is there.
unfoldable pub but_last : Bytes → Bytes
but_last [] = []
but_last (d ∷ []) = []
but_last (d ∷ e ∷ s) = d ∷ but_last (e ∷ s)

-- `strings.Trim` with a cutset of one byte, from the left and from the right.
unfoldable pub trim_left : ℕ → Bytes → Bytes
trim_left c [] = []
trim_left c (d ∷ s) = let rest = trim_left c s in if d == c then rest else d ∷ s

abbrev pub is_nil : Bytes → Bool
is_nil [] = true
is_nil (c ∷ s) = false

unfoldable pub trim_right : ℕ → Bytes → Bytes
trim_right c [] = []
trim_right c (d ∷ s) = let rest = trim_right c s in if d == c && is_nil rest then [] else d ∷ rest

unfoldable pub trim : ℕ → Bytes → Bytes
unfolding trim_left trim_right
trim c s = trim_right c (trim_left c s)

abbrev pub onto_first : ℕ → List Bytes → List Bytes
onto_first d [] = (d ∷ []) ∷ []
onto_first d (s ∷ ss) = (d ∷ s) ∷ ss

-- `strings.Split` with a separator of one byte.
unfoldable pub split : ℕ → Bytes → List Bytes
split c [] = [] ∷ []
split c (d ∷ s) = let rest = split c s in if d == c then [] ∷ rest else onto_first d rest

-- The white space of ASCII.
abbrev pub is_space : ℕ → Bool
is_space c = c == 32 || (leb 9 c && leb c 13)

-- `strings.TrimSpace` of an ASCII text.
unfoldable pub trim_space_left : Bytes → Bytes
trim_space_left [] = []
trim_space_left (c ∷ s) = let rest = trim_space_left s in if is_space c then rest else c ∷ s

unfoldable pub trim_space_right : Bytes → Bytes
trim_space_right [] = []
trim_space_right (c ∷ s) =
    let rest = trim_space_right s in if is_space c && is_nil rest then [] else c ∷ rest

unfoldable pub trim_space : Bytes → Bytes
unfolding trim_space_left trim_space_right
trim_space s = trim_space_right (trim_space_left s)

-- `strings.Join` with a separator of one byte.
unfoldable pub join : ℕ → List Bytes → Bytes
join c [] = []
join c (s ∷ []) = s
join c (s ∷ t ∷ ss) = s ++ c ∷ join c (t ∷ ss)

-- `strings.ToLower` of an ASCII text.
abbrev pub lower : ℕ → ℕ
lower c = if leb 65 c && leb c 90 then c + 32 else c

unfoldable pub to_lower : Bytes → Bytes
to_lower [] = []
to_lower (c ∷ s) = lower c ∷ to_lower s

-- The number of a list of decimal digits.
unfoldable pub of_digits : ℕ → Bytes → Option ℕ
of_digits acc [] = some acc
of_digits acc (c ∷ s) =
    let rest = of_digits (acc * 10 + (c - 48)) s in if leb 48 c && leb c 57 then rest else none

-- The number where it does not overflow an int64, whose least value is one further from 0.
abbrev at_most : ℕ → Option ℕ → Option ℕ
at_most limit none = none
at_most limit (some n) = if leb n limit then some n else none

unfoldable pub unsigned : ℕ → Bytes → Option ℕ
unfolding of_digits
unsigned limit [] = none
unsigned limit (c ∷ s) = at_most limit (of_digits 0 (c ∷ s))

abbrev negated : ℕ → ℤ
negated zero = pos zero
negated (suc n) = negsuc n

-- `strconv.Atoi`: a sign may stand first.
unfoldable pub atoi : Bytes → Option ℤ
unfolding unsigned
atoi [] = none
atoi (c ∷ s) =
    if c == 45
    then Option.map negated (unsigned 9223372036854775808 s)
    else if c == 43
    then Option.map pos (unsigned 9223372036854775807 s)
    else Option.map pos (unsigned 9223372036854775807 (c ∷ s))

-- `strings.CutPrefix`: what follows the prefix, where it is there.
unfoldable pub cut_prefix : Bytes → Bytes → Option Bytes
cut_prefix s [] = some s
cut_prefix [] (c ∷ p) = none
cut_prefix (d ∷ s) (c ∷ p) = let rest = cut_prefix s p in if d == c then rest else none

abbrev pub or_empty_bytes : Option Bytes → Bytes
or_empty_bytes none = []
or_empty_bytes (some s) = s

-- `strings.Contains`.
unfoldable pub includes : Bytes → Bytes → Bool
unfolding has_prefix
includes [] sub = has_prefix [] sub
includes (c ∷ s) sub = let rest = includes s sub in if has_prefix (c ∷ s) sub then true else rest
