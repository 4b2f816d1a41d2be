-- ===== src/Prelude/Decimal.antt =====
-- Rust's decimal `Display` of integers, and `str::parse` into `i32` and `u64`.
use Prim.Native.Nat.{ℕ, zero, suc, ◌+◌, ◌-◌, ◌*◌, ◌/◌, ◌%◌, ◌^◌, ◌≤◌, ◌<◌}
use mathlib.Core.Path.{◌≡◌, refl}
use mathlib.Core.Logic.{◌≢◌}
use mathlib.Core.Bool.{◌||◌}
use mathlib.Core.Option
use mathlib.Core.Option.{Option, none, some}
use mathlib.Core.List.{[], ◌∷◌, ◌++◌}
use native.Mathlib.Omega.{arith}
use direnv_instant.Prelude.Tests.{ltb, ◌==◌, if◌then◌else◌}
use direnv_instant.Prelude.Lists.{All}
use direnv_instant.Prelude.Texts.{Text, codes, trim, trim_start, trim_end, is_whitespace, read_line}
use direnv_instant.Prelude.Int.{ℤ, pos, negsuc, IsI32}

-- The digits of `n` in front of `out`; the fuel is more than `n`, and each round divides by ten.
digits : ℕ → ℕ → Text → Text
digits zero n out = out
digits (suc f) n out =
    let first = (b'0' + n % 10) ∷ out in
    let rest = digits f (n / 10) ((b'0' + n % 10) ∷ out) in if ltb n 10 then first else rest

unfoldable pub decimal : ℕ → Text
unfolding digits
decimal n = digits (suc n) n []

-- `Display` of a signed integer.
unfoldable pub display : ℤ → Text
unfolding decimal
display (pos n) = decimal n
display (negsuc n) = b'-' ∷ decimal (suc n)

-- The digits behind `n`; a value past `limit` is the overflow that `checked_mul` and `checked_add`
-- report, and any other character is an invalid digit.
unfoldable pub parse_digits : ℕ → Text → ℕ → Option ℕ
parse_digits limit [] n = some n
parse_digits limit (c ∷ s) n =
    let n' = n * 10 + (c - b'0') in
    if ltb c b'0' || ltb b'9' c
    then none
    else if ltb limit n'
    then none
    else parse_digits limit s n'

abbrev negated : ℕ → ℤ
negated zero = pos zero
negated (suc n) = negsuc n

abbrev parse_magnitude : ℕ → Text → Option ℕ
unfolding parse_digits
parse_magnitude limit [] = none
parse_magnitude limit (c ∷ s) = parse_digits limit (c ∷ s) 0

-- `parse::<i32>()`
unfoldable pub parse_i32 : Text → Option ℤ
unfolding parse_digits parse_magnitude
parse_i32 [] = none
parse_i32 (c ∷ s) =
    if c == b'-'
    then Option.map negated (parse_magnitude (2 ^ 31) s)
    else if c == b'+'
    then Option.map pos (parse_magnitude (2 ^ 31 - 1) s)
    else Option.map pos (parse_digits (2 ^ 31 - 1) (c ∷ s) 0)

-- `parse::<u64>()`
unfoldable pub parse_u64 : Text → Option ℕ
unfolding parse_digits parse_magnitude
parse_u64 [] = none
parse_u64 (c ∷ s) =
    if c == b'+' then parse_magnitude (2 ^ 64 - 1) s else parse_digits (2 ^ 64 - 1) (c ∷ s) 0

abbrev IsDigit : ℕ → Type 0
IsDigit c = (b'0' ≤ c) × (c ≤ b'9')

abbrev StartsDigit : Text → Type 0
StartsDigit [] = ⊥
StartsDigit (c ∷ s) = IsDigit c

parse_digits-digits :
    (limit f n : ℕ) (out : Text)
    → n < f
    → n ≤ limit
    → parse_digits limit (digits f n out) 0 ≡ parse_digits limit out n
unfolding digits parse_digits
parse_digits-digits limit zero n out h k = elim h [ ]
parse_digits-digits limit (suc f) n out h k =
    ground (arith, parse_digits-digits limit f (n / 10) ((b'0' + n % 10) ∷ out))

digits-StartsDigit : (f n : ℕ) (out : Text) → n < f → StartsDigit (digits f n out)
unfolding digits
digits-StartsDigit zero n out h = elim h [ ]
digits-StartsDigit (suc f) n out h =
    ground (arith, digits-StartsDigit f (n / 10) ((b'0' + n % 10) ∷ out))

digits-IsDigit : (f n : ℕ) (out : Text) → All IsDigit out → All IsDigit (digits f n out)
unfolding digits
digits-IsDigit zero n out h = h
digits-IsDigit (suc f) n out h = ground (arith, digits-IsDigit f (n / 10) ((b'0' + n % 10) ∷ out))

parse_i32-StartsDigit :
    (s : Text) → StartsDigit s → parse_i32 s ≡ Option.map pos (parse_digits (2 ^ 31 - 1) s 0)
unfolding parse_i32
parse_i32-StartsDigit [] h = absurd h
parse_i32-StartsDigit (c ∷ s) h = ground arith

parse_magnitude-StartsDigit :
    (limit : ℕ) (s : Text) → StartsDigit s → parse_magnitude limit s ≡ parse_digits limit s 0
unfolding parse_digits
parse_magnitude-StartsDigit limit [] h = absurd h
parse_magnitude-StartsDigit limit (c ∷ s) h = refl

parse_i32_negative :
    (s : Text) → parse_i32 (b'-' ∷ s) ≡ Option.map negated (parse_magnitude (2 ^ 31) s)
unfolding parse_i32
parse_i32_negative s = refl

parse_digits-decimal : (limit n : ℕ) → n ≤ limit → parse_digits limit (decimal n) 0 ≡ some n
unfolding decimal parse_digits
parse_digits-decimal limit n k = parse_digits-digits limit (suc n) n [] (omega arith) k

decimal-StartsDigit : (n : ℕ) → StartsDigit (decimal n)
unfolding decimal
decimal-StartsDigit n = digits-StartsDigit (suc n) n [] (omega arith)

pub parse_i32-display : (p : ℤ) → IsI32 p → parse_i32 (display p) ≡ some p
unfolding display
parse_i32-display (pos n) h = rw (
  parse_i32-StartsDigit _ (decimal-StartsDigit n),
  parse_digits-decimal (2 ^ 31 - 1) n (omega arith),
)
parse_i32-display (negsuc n) h = rw (
  parse_i32_negative,
  parse_magnitude-StartsDigit (2 ^ 31) _ (decimal-StartsDigit (suc n)),
  parse_digits-decimal (2 ^ 31) (suc n) (omega arith),
)

parse_u64-StartsDigit : (s : Text) → StartsDigit s → parse_u64 s ≡ parse_digits (2 ^ 64 - 1) s 0
unfolding parse_u64
parse_u64-StartsDigit [] h = absurd h
parse_u64-StartsDigit (c ∷ s) h = ground arith

pub parse_u64-decimal : (n : ℕ) → n < 2 ^ 64 → parse_u64 (decimal n) ≡ some n
parse_u64-decimal n h =
    rw (parse_u64-StartsDigit _ (decimal-StartsDigit n)) (parse_digits-decimal _ n (omega arith))

-- The characters of a decimal number, with a sign: neither white space nor a delimiter.
abbrev pub IsNumeral : ℕ → Type 0
IsNumeral c = (b'-' ≤ c) × (c ≤ b'9')

All-IsNumeral : (s : Text) → All IsDigit s → All IsNumeral s
All-IsNumeral [] h = tt
All-IsNumeral (c ∷ s) (h, hs) = (omega arith, All-IsNumeral s hs)

pub display-IsNumeral : (p : ℤ) → All IsNumeral (display p)
unfolding display decimal
display-IsNumeral (pos n) = All-IsNumeral _ (digits-IsDigit (suc n) n [] tt)
display-IsNumeral (negsuc n) =
    ((omega arith, omega arith), All-IsNumeral _ (digits-IsDigit (suc (suc n)) (suc n) [] tt))

trim_end-line : (s : Text) → All IsNumeral s → trim_end (s ++ codes "\n") ≡ s
unfolding trim_end
trim_end-line [] h = refl
trim_end-line (c ∷ s) ((h, k), hs) = rw (trim_end-line s hs) (graphic_last s)
  where
    graphic_last :
        (r : Text)
        → elim r as (λ _. Text) [
          | [] ↦ if is_whitespace c then [] else c ∷ []
          | d ∷ r' ↦ c ∷ d ∷ r'
        ]
          ≡ c ∷ r
    graphic_last [] = ground arith
    graphic_last (d ∷ r) = refl

trim_start-cons : (c : ℕ) (s : Text) → IsNumeral c → trim_start (c ∷ s) ≡ c ∷ s
unfolding trim_start
trim_start-cons c s (h, k) = ground arith

pub trim-line : (s : Text) → All IsNumeral s → trim (s ++ codes "\n") ≡ s
unfolding trim
trim-line [] h = refl
trim-line (c ∷ s) h = rw (trim_start-cons c _ h.0) (trim_end-line (c ∷ s) h)

-- A line without its line feed, and whatever the client writes behind it.
pub read_line-line :
    (s rest : Text) → All (λ c. c ≢ b'\n') s → read_line (s ++ codes "\n" ++ rest) ≡ s ++ codes "\n"
unfolding read_line
read_line-line [] rest h = refl
read_line-line (c ∷ s) rest (h, hs) = ground (arith, read_line-line s rest hs)

pub IsNumeral-ne_newline : (s : Text) → All IsNumeral s → All (λ c. c ≢ b'\n') s
IsNumeral-ne_newline [] h = tt
IsNumeral-ne_newline (c ∷ s) (h, hs) = (omega arith, IsNumeral-ne_newline s hs)
