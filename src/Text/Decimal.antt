-- ===== src/Text/Decimal.antt =====
-- Numbers as text: `Display` and `FromStr` of the unsigned integers.
pub mod Laws
use rfw.Base.{
  Result, [], err, if◌then◌else◌, list_eq, ltb, nat_eq, not, ok, suc, zero, ℕ, ◌%◌, ◌*◌, ◌++◌, ◌+◌,
  ◌-◌, ◌/◌, ◌==◌, ◌∷◌,
}
use rfw.Text.{Text, is_ascii_digit}

-- Fuel above the number is enough: each round divides it by ten.
show_fuel : ℕ → ℕ → Text
show_fuel zero n = []
show_fuel (suc f) n =
    let rest = show_fuel f (n / 10) in
    if ltb n 10 then (b'0' + n) ∷ [] else rest ++ (b'0' + n % 10) ∷ []

-- `{}` of an unsigned integer.
unfoldable pub show : ℕ → Text
unfolding show_fuel
show n = show_fuel (suc n) n

pub data ParseIntError : Type 0 where
  empty_int invalid_digit pos_overflow : ParseIntError

unfoldable pub parse_digits : ℕ → Text → ℕ → Result ParseIntError ℕ
parse_digits most [] n = ok n
parse_digits most (c ∷ s) n =
    let rest = parse_digits most s (n * 10 + (c - b'0')) in
    if not (is_ascii_digit c)
    then err invalid_digit
    else if ltb most (n * 10 + (c - b'0'))
    then err pos_overflow
    else rest

-- `str::parse::<uN>()` where `most` is `uN::MAX`: one leading `+` is accepted.
unfoldable pub parse_uint : ℕ → Text → Result ParseIntError ℕ
unfolding parse_digits
parse_uint most [] = err empty_int
parse_uint most (c ∷ []) = parse_digits most (c ∷ []) 0
parse_uint most (c ∷ d ∷ s) =
    if c == b'+' then parse_digits most (d ∷ s) 0 else parse_digits most (c ∷ d ∷ s) 0

abbrev pub u16_max : ℕ
u16_max = 65535
