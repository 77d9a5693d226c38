-- ===== src/Text/Number.antt =====
-- `String(n)`, `padStart(2, '0')`, and `Number(text)` for plain decimal notation.
use debrid_nest.Prelude.{
  ℕ, zero, suc, ◌+◌, ◌-◌, ◌*◌, ◌/◌, ◌%◌, ◌&&◌, [], ◌∷◌, ◌++◌, Option, none, some, ltb, eqb,
  if◌then◌else◌, length, all,
}
use debrid_nest.Text.{Text, is_digit, trim}

-- The decimal digits of a number, most significant first. The fuel bounds their number.
unfoldable pub digits_from : ℕ → ℕ → Text → Text
digits_from zero n acc = acc
digits_from (suc f) n acc =
    let rest = digits_from f (n / 10) ((b'0' + n % 10) ∷ acc) in
    if ltb n 10 then (b'0' + n) ∷ acc else rest

-- `String(n)`. A number below 10 ^ n has at most n digits, so n + 1 rounds are enough.
unfoldable pub show_nat : ℕ → Text
unfolding digits_from
show_nat n = digits_from (n + 1) n []

-- `String(n).padStart(2, '0')`
unfoldable pub pad2 : ℕ → Text
unfolding show_nat
pad2 n = let s = show_nat n in if ltb (length s) 2 then b'0' ∷ s else s

-- The number that a row of digits stands for.
unfoldable pub read_digits : ℕ → Text → ℕ
read_digits acc [] = acc
read_digits acc (c ∷ s) = read_digits (acc * 10 + (c - b'0')) s

-- A decimal number: `mantissa / 10 ^ scale`.
pub record Decimal : Type 0 where
  pub mantissa : ℕ
  pub scale : ℕ

abbrev pub zero_decimal : Decimal
zero_decimal = record { mantissa = 0; scale = 0 }

-- The text before the first point, and what follows it.
unfoldable pub cut_point : Text → Text × Option Text
cut_point [] = ([], none)
cut_point (c ∷ s) =
    let rest = cut_point s in if eqb c b'.' then ([], some s) else (c ∷ rest.0, rest.1)

unfoldable pub unsigned_of : Text × Option Text → Option Decimal
unsigned_of (whole, none) =
    if all is_digit whole && ltb 0 (length whole)
    then some (record { mantissa = read_digits 0 whole; scale = 0 })
    else none
unsigned_of (whole, some part) =
    if all is_digit whole && all is_digit part && ltb 0 (length whole + length part)
    then some (record { mantissa = read_digits 0 (whole ++ part); scale = length part })
    else none

-- `Number(text)` where it is a finite number and not negative. Exponents and the notations 0x, 0o
-- and 0b are read as no number.
unfoldable pub parse_number : Text → Option Decimal
parse_number [] = some zero_decimal
parse_number (c ∷ s) =
    if eqb c b'+' then unsigned_of (cut_point s) else unsigned_of (cut_point (c ∷ s))

unfoldable pub to_number : Text → Option Decimal
unfolding parse_number unsigned_of cut_point read_digits
to_number s = parse_number (trim s)
