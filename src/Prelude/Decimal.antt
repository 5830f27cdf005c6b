-- ===== src/Prelude/Decimal.antt =====
-- `strconv.Itoa` and `strconv.Atoi` on 64-bit integers.
use Prim.Native.Nat.{ℕ, zero, suc, ◌+◌, ◌-◌, ◌*◌, ◌/◌, ◌%◌, ◌<◌, ◌≤◌}
use Prim.Native.Char.{Char, code}
use Prim.Native.String.{String, char_at}
use mathlib.Core.Path.{◌≡◌, refl, ◌∙◌, ap}
use mathlib.Core.Bool.{Bool, true, ◌&&◌}
use mathlib.Core.Option.{Option, none, some}
use native.Mathlib.Omega.{arith}
use mathlib.Core.Logic.{inl, inr}
use arkonis_operator.Prelude.Tests.{Bool-cases, ltb, leb, eqb, if◌then◌else◌}
use arkonis_operator.Prelude.Words.{Int64, word, half}

abbrev digit : ℕ → Char
digit n = char_at "0123456789" n

-- The digits of `n` before `rest`, from the last to the first.
unfoldable pub digits : ℕ → ℕ → String → String
digits zero n rest = String.◌∷◌ (digit n) rest
digits (suc fuel) n rest =
    let more = digits fuel (n / 10) (String.◌∷◌ (digit (n % 10)) rest) in
    if ltb n 10 then String.◌∷◌ (digit n) rest else more

unfoldable pub itoa : Int64 → String
itoa n =
    if ltb n half
    then digits n n String.[]
    else String.◌∷◌ (char_at "-" 0) (digits (word - n) (word - n) String.[])

abbrev value : Option ℕ → ℕ
value none = 0
value (some n) = n

abbrev is_digit : Char → Bool
is_digit c = leb b'0' (code c) && leb (code c) b'9'

-- Reads digits on to those read so far; no digit at all is no number.
unfoldable pub read_digits : Option ℕ → String → Option ℕ
read_digits read String.[] = read
read_digits read (String.◌∷◌ c s) =
    let more = read_digits (some (10 * value read + (code c - b'0'))) s in
    if is_digit c then more else none

abbrev below : ℕ → (ℕ → Int64) → Option ℕ → Option Int64
below bound f none = none
below bound f (some n) = if ltb n bound then some (f n) else none

abbrev negative : ℕ → Int64
negative n = if eqb n 0 then 0 else word - n

abbrev signed : String → Option Int64
signed String.[] = none
signed (String.◌∷◌ c s) =
    if eqb (code c) b'-'
    then below (suc half) negative (read_digits none s)
    else if eqb (code c) b'+'
    then below half (λ n. n) (read_digits none s)
    else none

abbrev unsigned : String → Option ℕ → Option Int64
unsigned s none = signed s
unsigned s (some n) = if ltb n half then some n else none

-- `none` is an error: no number, or one out of range.
unfoldable pub atoi : String → Option Int64
atoi s = unsigned s (read_digits none s)

abbrev clamp : ℕ → (ℕ → Int64) → Option ℕ → Int64
clamp bound f none = 0
clamp bound f (some n) = if ltb n bound then f n else f (bound - 1)

-- `strconv.ParseUint`: as `read_digits`, but it ends at the digit that takes the number out of 64 bits.
unfoldable pub read_word : Option ℕ → String → Option ℕ
read_word read String.[] = read
read_word read (String.◌∷◌ c s) =
    let n = 10 * value read + (code c - b'0') in
    let more = read_word (some n) s in
    if is_digit c then if ltb n word then more else some word else none

abbrev clamp_signed : String → Int64
clamp_signed String.[] = 0
clamp_signed (String.◌∷◌ c s) =
    if eqb (code c) b'-'
    then clamp (suc half) negative (read_word none s)
    else if eqb (code c) b'+'
    then clamp half (λ n. n) (read_word none s)
    else 0

-- `ToInt64` of a value that may be missing: `strconv.ParseInt` without its error, which returns 0 for
-- what is no number and the nearest bound for what is out of range.
unfoldable pub to_int64 : Option String → Int64
unfolding read_word
to_int64 none = 0
to_int64 (some s) = elim (read_word none s) [
  | some n ↦ clamp half (λ k. k) (some n)
  | none ↦ clamp_signed s
]

digit-code : (n : ℕ) → n < 10 → code (digit n) ≡ 48 + n
digit-code zero h = refl
digit-code (suc zero) h = refl
digit-code (suc (suc zero)) h = refl
digit-code (suc (suc (suc zero))) h = refl
digit-code (suc (suc (suc (suc zero)))) h = refl
digit-code (suc (suc (suc (suc (suc zero))))) h = refl
digit-code (suc (suc (suc (suc (suc (suc zero)))))) h = refl
digit-code (suc (suc (suc (suc (suc (suc (suc zero))))))) h = refl
digit-code (suc (suc (suc (suc (suc (suc (suc (suc zero)))))))) h = refl
digit-code (suc (suc (suc (suc (suc (suc (suc (suc (suc zero))))))))) h = refl
digit-code (suc (suc (suc (suc (suc (suc (suc (suc (suc (suc n)))))))))) h = absurd (omega arith)

is_digit_low : (n : ℕ) → leb 48 (48 + n) ≡ true
is_digit_low n = ground arith

is_digit_high : (n : ℕ) → n < 10 → leb (48 + n) 57 ≡ true
is_digit_high n h = ground arith

digit_value : (n : ℕ) → (48 + n) - 48 ≡ n
digit_value n = omega arith

read_digits-digit :
    (read : Option ℕ) (n : ℕ) (rest : String)
    → n < 10
    → read_digits read (String.◌∷◌ (digit n) rest) ≡ read_digits (some (10 * value read + n)) rest
unfolding read_digits
read_digits-digit read n rest h =
    rw (digit-code n h, is_digit_low n, is_digit_high n h, digit_value n) refl

read_digits-single :
    (n : ℕ) (rest : String)
    → n < 10
    → read_digits none (String.◌∷◌ (digit n) rest) ≡ read_digits (some n) rest
read_digits-single n rest h =
    read_digits-digit none n rest h ∙ ap (λ k. read_digits (some k) rest) (omega arith)

-- Reading from the left undoes what writing did from the right.
read_digits-digits :
    (fuel n : ℕ) (rest : String)
    → n ≤ fuel
    → read_digits none (digits fuel n rest) ≡ read_digits (some n) rest
unfolding digits
read_digits-digits zero n rest h = read_digits-single n rest (omega arith)
read_digits-digits (suc fuel) n rest h = elim (Bool-cases (ltb n 10)) [
  | inl small ↦ rw small (read_digits-single n rest (ground arith))
  | inr big ↦ rw big (
      read_digits-digits fuel (n / 10) (String.◌∷◌ (digit (n % 10)) rest) (ground arith)
      ∙ read_digits-digit (some (n / 10)) (n % 10) rest (omega arith)
      ∙ ap (λ k. read_digits (some k) rest) (omega arith))
]

ltb-true : (a b : ℕ) → a < b → ltb a b ≡ true
ltb-true a b h = ground arith

itoa-digits : (n : ℕ) → n < half → itoa n ≡ digits n n String.[]
unfolding itoa
itoa-digits n h = rw (ltb-true n half h) refl

unsigned-below : (s : String) (n : ℕ) → n < half → unsigned s (some n) ≡ some n
unsigned-below s n h = rw (ltb-true n half h) refl

atoi-read_digits : (s : String) (n : ℕ) → n < half → read_digits none s ≡ some n → atoi s ≡ some n
unfolding atoi
atoi-read_digits s n h e = ap (unsigned s) e ∙ unsigned-below s n h

read_digits-end : (n : ℕ) → read_digits (some n) String.[] ≡ some n
unfolding read_digits
read_digits-end n = refl

-- A number that is not negative is read back as it was written.
pub atoi-itoa : (n : ℕ) → n < half → atoi (itoa n) ≡ some n
atoi-itoa n h = atoi-read_digits (itoa n) n h (
    ap (read_digits none) (itoa-digits n h)
    ∙ read_digits-digits n n String.[] (omega arith)
    ∙ read_digits-end n)
