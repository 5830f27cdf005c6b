-- ===== src/Prelude/Text.antt =====
-- The functions of Go's `strings` that the program uses. Letters and white space are those of ASCII.
use Prim.Native.Nat.{ℕ, zero, suc, ◌-◌}
use Prim.Native.Char.{Char, code}
use Prim.Native.String.{String, char_at, ◌++◌}
use mathlib.Core.Bool.{Bool, false, ◌&&◌, ◌||◌}
use mathlib.Core.Path.{◌≡◌}
use mathlib.Core.Logic.{◌≢◌}
use mathlib.Core.Option.{Option, none, some}
use native.Mathlib.Omega.{arith}
use text.Mathlib.TextEquality.{eq_iff}
use mathlib.Core.List.{List, [], ◌∷◌}
pub use text.Mathlib.Text.{◌==◌, starts_with}
use arkonis_operator.Prelude.Tests.{leb, eqb, if◌then◌else◌}

infixr 66 ◌<>◌
abbrev pub ◌<>◌ : String → String → String
s <> t = s ++ t

abbrev to_lower_char : Char → Char
to_lower_char c =
    if leb b'A' (code c) && leb (code c) b'Z'
    then char_at "abcdefghijklmnopqrstuvwxyz" (code c - b'A')
    else c

unfoldable pub to_lower : String → String
to_lower String.[] = String.[]
to_lower (String.◌∷◌ c s) = String.◌∷◌ (to_lower_char c) (to_lower s)

abbrev to_upper_char : Char → Char
to_upper_char c =
    if leb b'a' (code c) && leb (code c) b'z'
    then char_at "ABCDEFGHIJKLMNOPQRSTUVWXYZ" (code c - b'a')
    else c

unfoldable pub to_upper : String → String
to_upper String.[] = String.[]
to_upper (String.◌∷◌ c s) = String.◌∷◌ (to_upper_char c) (to_upper s)

abbrev pub is_space : Char → Bool
is_space c = eqb (code c) 32 || leb 9 (code c) && leb (code c) 13

unfoldable pub trim_left : String → String
trim_left String.[] = String.[]
trim_left (String.◌∷◌ c s) = let rest = trim_left s in if is_space c then rest else String.◌∷◌ c s

unfoldable pub trim_right : String → String
trim_right String.[] = String.[]
trim_right (String.◌∷◌ c s) =
    let rest = trim_right s in if is_space c && rest == "" then String.[] else String.◌∷◌ c rest

-- `strings.TrimSpace`.
unfoldable pub trim_space : String → String
unfolding trim_left trim_right
trim_space s = trim_right (trim_left s)

-- `s[strings.Index(s, sub):]`, and `none` where the index is negative.
unfoldable pub from_first : String → String → Option String
from_first sub String.[] = if starts_with String.[] sub then some String.[] else none
from_first sub (String.◌∷◌ c s) =
    let rest = from_first sub s in
    if starts_with (String.◌∷◌ c s) sub then some (String.◌∷◌ c s) else rest

abbrev cons_some : Char → Option String → Option String
cons_some c none = none
cons_some c (some s) = some (String.◌∷◌ c s)

-- `s[:strings.Index(s, sub)]`, and `none` where the index is negative.
unfoldable pub before_first : String → String → Option String
before_first sub String.[] = if starts_with String.[] sub then some String.[] else none
before_first sub (String.◌∷◌ c s) =
    let rest = cons_some c (before_first sub s) in
    if starts_with (String.◌∷◌ c s) sub then some String.[] else rest

abbrev cons_first : Char → List String → List String
cons_first c [] = String.◌∷◌ c String.[] ∷ []
cons_first c (line ∷ lines) = String.◌∷◌ c line ∷ lines

-- `strings.SplitSeq(s, "\n")`.
unfoldable pub split_lines : String → List String
split_lines String.[] = String.[] ∷ []
split_lines (String.◌∷◌ c s) =
    let rest = split_lines s in if eqb (code c) 10 then String.[] ∷ rest else cons_first c rest

-- `strings.Split(s, sep)` where the separator is one character, given by its code.
unfoldable pub split_at : ℕ → String → List String
split_at sep String.[] = String.[] ∷ []
split_at sep (String.◌∷◌ c s) =
    let rest = split_at sep s in if eqb (code c) sep then String.[] ∷ rest else cons_first c rest

-- `strings.CutPrefix(s, prefix)`, and `none` where the prefix is not there.
unfoldable pub cut_prefix : String → String → Option String
cut_prefix s String.[] = some s
cut_prefix String.[] (String.◌∷◌ p prefix) = none
cut_prefix (String.◌∷◌ c s) (String.◌∷◌ p prefix) =
    let rest = cut_prefix s prefix in if eqb (code c) (code p) then rest else none

-- `strings.TrimPrefix(s, prefix)`.
unfoldable pub trim_prefix : String → String → String
unfolding cut_prefix
trim_prefix s prefix = elim (cut_prefix s prefix) [ none ↦ s | some rest ↦ rest ]

-- `strings.Split(s, sep)` where `sep` has one character more than `more`; `skip` characters belong to a
-- separator.
unfoldable pub split_text : (sep : String) (more skip : ℕ) → String → List String
split_text sep more skip String.[] = String.[] ∷ []
split_text sep more (suc skip) (String.◌∷◌ c s) = split_text sep more skip s
split_text sep more zero (String.◌∷◌ c s) =
    let parted = String.[] ∷ split_text sep more more s in
    let joined = cons_first c (split_text sep more zero s) in
    if starts_with (String.◌∷◌ c s) sep then parted else joined

pub full-test : (v : String) → v ≢ "" → (v == "") ≡ false
full-test v full = ground (arith, eq_iff v "")
