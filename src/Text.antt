-- ===== src/Text.antt =====
-- C strings as lists of bytes without the NUL, and what the code uses of <string.h>, <ctype.h> and
-- the conversions of `sscanf`.
pub mod Search
pub mod Hex
use Prim.Native.Char.{code}
use Prim.Native.String.{String}
use extlib.Common.{
  ℕ, zero, suc, ltb, ◌/◌, ◌+◌, ◌-◌, ◌*◌, ◌%◌, ◌^◌, ◌≡◌, refl, Bool, true, false, ◌&&◌, ◌||◌, Option,
  none, some, [], ◌∷◌, arith, leb, ◌==◌, if◌then◌else◌, Bytes,
}

-- the bytes of a literal
abbrev pub codes : String → Bytes
codes String.[] = []
codes (String.◌∷◌ c s) = code c ∷ codes s

-- `strcmp(a, b) == 0`
unfoldable pub same_text : Bytes → Bytes → Bool
same_text [] [] = true
same_text [] (y ∷ ys) = false
same_text (x ∷ xs) [] = false
same_text (x ∷ xs) (y ∷ ys) = (x == y) && same_text xs ys

-- `strncmp(a, b, strlen(a)) == 0`: the text `b` starts with `a`.
unfoldable pub starts : Bytes → Bytes → Bool
starts [] ys = true
starts (x ∷ xs) [] = false
starts (x ∷ xs) (y ∷ ys) = (x == y) && starts xs ys

abbrev pub is_digit : ℕ → Bool
is_digit c = leb b'0' c && leb c b'9'

abbrev pub is_space : ℕ → Bool
is_space c = (c == 32) || (leb 9 c && leb c 13)

skip_spaces : Bytes → Bytes
skip_spaces [] = []
skip_spaces (c ∷ s) = if is_space c then skip_spaces s else c ∷ s

-- the number that the leading digits spell behind `n`
digits_value : ℕ → Bytes → ℕ
digits_value n [] = n
digits_value n (c ∷ s) =
    let rest = digits_value (n * 10 + (c - b'0')) s in if is_digit c then rest else n

leading_number : Bytes → Option ℕ
leading_number [] = none
leading_number (c ∷ s) = if is_digit c then some (digits_value 0 (c ∷ s)) else none

-- `%d` into an `int` that is passed on as a `uint16_t`. (A number that does not fit an `int` is
-- undefined in C.)
scan_uint16 : Bytes → Option ℕ
scan_uint16 [] = none
scan_uint16 (c ∷ s) =
    if c == b'-'
    then elim (leading_number s) [ none ↦ none | some n ↦ some ((2 ^ 16 - n % 2 ^ 16) % 2 ^ 16) ]
    else elim (leading_number (if c == b'+' then s else c ∷ s)) [
      | none ↦ none
      | some n ↦ some (n % 2 ^ 16)
    ]

-- `sscanf(header, "/%d/", &dstid) == 1`, with what it stores in `dstid`
unfoldable pub scan_dstid : Bytes → Option ℕ
unfolding skip_spaces digits_value leading_number scan_uint16
scan_dstid [] = none
scan_dstid (c ∷ s) = if c == b'/' then scan_uint16 (skip_spaces s) else none

dstid_of_echo : scan_dstid (codes "/8888/echo") ≡ some 8888
unfolding scan_dstid
dstid_of_echo = refl

pub same_text→eq : (a b : Bytes) → same_text a b ≡ true → a ≡ b
unfolding same_text
same_text→eq [] [] h = refl
same_text→eq [] (y ∷ ys) h = cc
same_text→eq (x ∷ xs) [] h = cc
same_text→eq (x ∷ xs) (y ∷ ys) h = ground (arith, same_text→eq xs ys)

pub same_text_refl : (a : Bytes) → same_text a a ≡ true
unfolding same_text
same_text_refl [] = refl
same_text_refl (x ∷ xs) = ground (arith, same_text_refl xs)

-- The text at a pointer: the bytes before the first NUL.
unfoldable pub text_at : Bytes → Bytes
text_at [] = []
text_at (c ∷ mem) = let rest = text_at mem in if c == 0 then [] else c ∷ rest

-- `strstr`, as an index
unfoldable pub find_text : Bytes → Bytes → Option ℕ
find_text pat [] = if starts pat [] then some 0 else none
find_text pat (c ∷ s) =
    let rest = find_text pat s in
    if starts pat (c ∷ s) then some 0 else elim rest [ none ↦ none | some i ↦ some (suc i) ]

-- the value of a hexadecimal digit
pub hex_value : ℕ → Option ℕ
hex_value c =
    if is_digit c
    then some (c - b'0')
    else if leb b'a' c && leb c b'f'
    then some (c - 87)
    else if leb b'A' c && leb c b'F'
    then some (c - 55)
    else none

-- Up to so many digits, behind `n`.
hex_run : ℕ → ℕ → Bytes → ℕ × Bytes
hex_run zero n s = (n, s)
hex_run (suc w) n [] = (n, [])
hex_run (suc w) n (c ∷ s) = elim (hex_value c) [
  | none ↦ (n, c ∷ s)
  | some d ↦ hex_run w (n * 16 + d) s
]

-- at least one digit, and at most `w`
hex_number : ℕ → Bytes → Option (ℕ × Bytes)
hex_number zero s = none
hex_number (suc w) [] = none
hex_number (suc w) (c ∷ s) = elim (hex_value c) [ none ↦ none | some d ↦ some (hex_run w d s) ]

-- digits with or without `0x`
hex_magnitude : ℕ → Bytes → Option (ℕ × Bytes)
hex_magnitude (suc (suc w)) (c ∷ x ∷ s) =
    if (c == b'0') && ((x == b'x') || (x == b'X'))
    then hex_number w s
    else hex_number (suc (suc w)) (c ∷ x ∷ s)
hex_magnitude w s = hex_number w s

abbrev negated : Option (ℕ × Bytes) → Option (ℕ × Bytes)
negated none = none
negated (some (n, s)) = some ((2 ^ 32 - n % 2 ^ 32) % 2 ^ 32, s)

abbrev wrapped : Option (ℕ × Bytes) → Option (ℕ × Bytes)
wrapped none = none
wrapped (some (n, s)) = some (n % 2 ^ 32, s)

-- `%x` of at most `w` bytes into a `uint32_t`, with the text behind it
unfoldable pub scan_hex : ℕ → Bytes → Option (ℕ × Bytes)
unfolding skip_spaces hex_value hex_run hex_number hex_magnitude
scan_hex w s = elim (skip_spaces s) [
  | [] ↦ none
  | c ∷ t ↦
      if c == b'-'
      then negated (hex_magnitude (w - 1) t)
      else if c == b'+'
      then wrapped (hex_magnitude (w - 1) t)
      else wrapped (hex_magnitude w (c ∷ t))
]

-- `%c`
abbrev pub scan_char : Bytes → Option (ℕ × Bytes)
scan_char [] = none
scan_char (c ∷ s) = some (c, s)

-- a byte of the format that the text must have
abbrev pub scan_literal : ℕ → Bytes → Option Bytes
scan_literal c [] = none
scan_literal c (d ∷ s) = if c == d then some s else none

-- `%.4x` of a number of 16 bits
unfoldable pub hex_char : ℕ → ℕ
hex_char d = if ltb d 10 then b'0' + d else 87 + d

unfoldable pub hex4 : ℕ → Bytes
unfolding hex_char
hex4 n =
    hex_char (n / 4096 % 16)
    ∷ hex_char (n / 256 % 16)
    ∷ hex_char (n / 16 % 16)
    ∷ hex_char (n % 16)
    ∷ []
