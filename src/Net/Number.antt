-- ===== src/Net/Number.antt =====
-- Numbers in text: strconv.Atoi, the conversion to byte, and printing in decimal and hexadecimal.
use platform_configure.Prelude.{
  ℕ, ◌+◌, ◌-◌, ◌*◌, ◌/◌, ◌%◌, ◌^◌, Bytes, Bool, ◌&&◌, [], ◌∷◌, ◌++◌, Option, none, some, ltb, leb,
  if◌then◌else◌,
}
use platform_configure.Prelude.Int.{ℤ, pos, negsuc}

unfoldable pub is_digit : ℕ → Bool
is_digit c = leb 48 c && leb c 57

-- The value of decimal digits behind the number read so far; `none` at any other byte.
unfoldable pub decimal_value : ℕ → Bytes → Option ℕ
unfolding is_digit
decimal_value n [] = some n
decimal_value n (c ∷ s) =
    let rest = decimal_value (n * 10 + (c - 48)) s in if is_digit c then rest else none

-- What `Atoi` returns: a number, or one of its two errors.
pub data Atoi : Type 0 where
  number : ℤ → Atoi
  syntax_error : Atoi
  range_error : Atoi

-- -n
unfoldable pub negate : ℕ → ℤ
negate n = if ltb 0 n then negsuc (n - 1) else pos 0

unsigned : Option ℕ → Atoi
unsigned none = syntax_error
unsigned (some n) = if ltb n (2 ^ 63) then number (pos n) else range_error

negative : Option ℕ → Atoi
unfolding negate
negative none = syntax_error
negative (some n) = if leb n (2 ^ 63) then number (negate n) else range_error

digits_of : Bytes → Option ℕ
unfolding decimal_value
digits_of [] = none
digits_of (c ∷ s) = decimal_value 0 (c ∷ s)

-- strconv.Atoi(s), for a 64-bit int
unfoldable pub atoi : Bytes → Atoi
unfolding unsigned negative digits_of
atoi [] = syntax_error
atoi (c ∷ s) =
    if (leb 45 c && leb c 45)
    then negative (digits_of s)
    else if (leb 43 c && leb c 43)
    then unsigned (digits_of s)
    else unsigned (digits_of (c ∷ s))

-- The conversion `byte(b)` keeps the low eight bits of the two's complement.
unfoldable pub to_byte : ℤ → ℕ
to_byte (pos n) = n % 256
to_byte (negsuc n) = 255 - n % 256

-- A number below 1000 in decimal.
unfoldable pub decimal : ℕ → Bytes
decimal n =
    if ltb n 10
    then (48 + n) ∷ []
    else if ltb n 100
    then (48 + n / 10) ∷ (48 + n % 10) ∷ []
    else (48 + n / 100) ∷ (48 + n / 10 % 10) ∷ (48 + n % 10) ∷ []

unfoldable pub hex_digit : ℕ → ℕ
hex_digit n = if ltb n 10 then 48 + n else 87 + n

-- Two hexadecimal digits.
unfoldable pub hex_byte : ℕ → Bytes
unfolding hex_digit
hex_byte n = hex_digit (n / 16) ∷ hex_digit (n % 16) ∷ []

-- A number below 65536 in hexadecimal, without leading zeros.
unfoldable pub hex_group : ℕ → Bytes
unfolding hex_digit hex_byte
hex_group n =
    if ltb n 16
    then hex_digit n ∷ []
    else if ltb n 256
    then hex_byte n
    else if ltb n 4096
    then hex_digit (n / 256) ∷ hex_byte (n % 256)
    else hex_byte (n / 256) ++ hex_byte (n % 256)
