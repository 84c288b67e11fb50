-- ===== src/Text/Hex.antt =====
-- Numbers of 16 bits, printed in hexadecimal and scanned again.
use extlib.Common.{
  none, ℕ, suc, ◌+◌, ◌*◌, ◌/◌, ◌%◌, ◌^◌, ◌<◌, ◌≡◌, refl, false, All, ◌⊎◌, some, ◌∷◌, ◌++◌, arith,
  ◌==◌, Bytes,
}
use extlib.Text.Search.{Lacks}
use extlib.Text.{
  is_space, skip_spaces, hex_value, hex_run, hex_number, hex_magnitude, scan_hex, hex_char, hex4,
}

hex_value-hex_char : (d : ℕ) → d < 16 → hex_value (hex_char d) ≡ some d
unfolding hex_value hex_char
hex_value-hex_char d h = ground arith

hex_char-plain :
    (d : ℕ)
    → d < 16
    → (is_space (hex_char d) ≡ false)
      × ((hex_char d == b'-') ≡ false)
      × ((hex_char d == b'+') ≡ false)
      × ((hex_char d == b'x') ≡ false)
      × ((hex_char d == b'X') ≡ false)
unfolding hex_char
hex_char-plain d h = (ground arith, ground arith, ground arith, ground arith, ground arith)

hex_number-four :
    (a b c d : ℕ) (s : Bytes)
    → a < 16
    → b < 16
    → c < 16
    → d < 16
    → hex_number 4 (hex_char a ∷ hex_char b ∷ hex_char c ∷ hex_char d ∷ s)
      ≡ some (((a * 16 + b) * 16 + c) * 16 + d, s)
unfolding hex_number hex_run
hex_number-four a b c d s ha hb hc hd = ground (
  arith,
  hex_value-hex_char a ha,
  hex_value-hex_char b hb,
  hex_value-hex_char c hc,
  hex_value-hex_char d hd,
)

pub scan_hex-hex4 : (n : ℕ) (s : Bytes) → n < 65536 → scan_hex 4 (hex4 n ++ s) ≡ some (n, s)
unfolding scan_hex skip_spaces hex_magnitude hex4
scan_hex-hex4 n s h =
    let a = n / 4096 % 16 in
    let b = n / 256 % 16 in
    let c = n / 16 % 16 in
    let d = n % 16 in
    let p = hex_char-plain a (omega arith) in
    let q = hex_char-plain b (omega arith) in
    let e = hex_number-four a b c d s (omega arith) (omega arith) (omega arith) (omega arith) in
    let v : (((a * 16 + b) * 16 + c) * 16 + d) % 2 ^ 32 ≡ n = omega arith in
    ground (arith, e, v, p, q)

-- a lone zero before a comma
pub scan_zero : (w : ℕ) (s : Bytes) → scan_hex (suc (suc w)) (b'0' ∷ b',' ∷ s) ≡ some (0, b',' ∷ s)
unfolding scan_hex skip_spaces hex_value hex_magnitude hex_number hex_run
scan_zero w s = refl

-- what holds of every digit holds of the four that are printed
hex4-All : (P : ℕ → Type 0) (n : ℕ) → ((d : ℕ) → d < 16 → P (hex_char d)) → All P (hex4 n)
unfolding hex4
hex4-All P n h = (
  h (n / 4096 % 16) (omega arith),
  (h (n / 256 % 16) (omega arith), (h (n / 16 % 16) (omega arith), (h (n % 16) (omega arith), tt))),
)

-- the NUL and the delimiters
abbrev pub Delimits : ℕ → Type 0
Delimits c = (c ≡ 0) ⊎ ((c ≡ b':') ⊎ (c ≡ b'?'))

-- No digit is one of them.
pub hex_char-Delimits : (c d : ℕ) → d < 16 → Delimits c → (c == hex_char d) ≡ false
unfolding hex_char
hex_char-Delimits c d h k = ground arith

pub hex4-Lacks : (c n : ℕ) → Delimits c → Lacks c (hex4 n)
hex4-Lacks c n k = hex4-All (λ x. (c == x) ≡ false) n (λ d h. hex_char-Delimits c d h k)

hex_value_colon : hex_value b':' ≡ none
unfolding hex_value
hex_value_colon = refl

hex_run-stop :
    (w a b c d : ℕ) (s : Bytes)
    → a < 16
    → b < 16
    → c < 16
    → d < 16
    → hex_number
        (suc (suc (suc (suc (suc w)))))
        (hex_char a ∷ hex_char b ∷ hex_char c ∷ hex_char d ∷ b':' ∷ s)
      ≡ some (((a * 16 + b) * 16 + c) * 16 + d, b':' ∷ s)
unfolding hex_number hex_run
hex_run-stop w a b c d s ha hb hc hd =
    let colon : hex_value b':' ≡ none = hex_value_colon in
    ground (
      arith,
      hex_value-hex_char a ha,
      hex_value-hex_char b hb,
      hex_value-hex_char c hc,
      hex_value-hex_char d hd,
      colon,
    )

-- the same before a colon, where more digits would be read
pub scan_hex-colon :
    (w n : ℕ) (s : Bytes)
    → n < 65536
    → scan_hex (suc (suc (suc (suc (suc w))))) (hex4 n ++ (b':' ∷ s)) ≡ some (n, b':' ∷ s)
unfolding scan_hex skip_spaces hex_magnitude hex4
scan_hex-colon w n s h =
    let a = n / 4096 % 16 in
    let b = n / 256 % 16 in
    let c = n / 16 % 16 in
    let d = n % 16 in
    let p = hex_char-plain a (omega arith) in
    let q = hex_char-plain b (omega arith) in
    let e = hex_run-stop w a b c d s (omega arith) (omega arith) (omega arith) (omega arith) in
    let v : (((a * 16 + b) * 16 + c) * 16 + d) % 2 ^ 32 ≡ n = omega arith in
    ground (arith, e, v, p, q)
