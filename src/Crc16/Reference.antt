-- ===== src/Crc16/Reference.antt =====
-- The division by the polynomial that the comment of src/crc16.c names, bit by bit, and what the
-- table does compared with it, tried on all values of 16 bits.
use Prim.Native.Nat.{bit_xor, bit_and}
use extlib.Common.{
  ℕ, zero, suc, ◌*◌, ◌+◌, ◌/◌, ◌%◌, ◌<◌, ◌≡◌, refl, ap, ◌∙◌, Bool, true, ◌&&◌, ◌==◌, [], ◌∷◌,
  get_or, ltb, leb, if◌then◌else◌, Bytes, arith, ==→eq, Bool-cases, inl, inr,
}
use extlib.Crc16.{crc16tab}

-- x^16 + x^12 + x^5 + 1, without its highest term
abbrev pub poly : ℕ
poly = 0x1021

abbrev pub shift : ℕ → ℕ
shift crc = if leb 32768 crc then bit_xor (crc * 2 % 65536) poly else crc * 2

abbrev pub shifts : ℕ → ℕ → ℕ
shifts zero crc = crc
shifts (suc n) crc = shifts n (shift crc)

-- the byte added to the upper half
abbrev pub mix : ℕ → ℕ → ℕ
mix crc byte = bit_xor (crc / 256) byte * 256 + crc % 256

-- eight bits of the division
abbrev pub reference_round : ℕ → ℕ → ℕ
reference_round crc byte = shifts 8 (mix crc byte)

abbrev pub xmodem : ℕ → Bytes → ℕ
xmodem crc [] = crc
xmodem crc (byte ∷ buf) = xmodem (reference_round crc byte) buf

-- the division run backwards
abbrev pub unshift : ℕ → ℕ
unshift crc = if crc % 2 == 1 then bit_xor crc poly / 2 + 32768 else crc / 2

abbrev pub unshifts : ℕ → ℕ → ℕ
unshifts zero crc = crc
unshifts (suc n) crc = unshifts n (unshift crc)

all_below : ℕ → (ℕ → Bool) → Bool
all_below zero p = true
all_below (suc n) p = p n && all_below n p

all_below-holds : (n : ℕ) (p : ℕ → Bool) (k : ℕ) → all_below n p ≡ true → k < n → p k ≡ true
unfolding all_below
all_below-holds zero p k h l = absurd (omega (arith, l))
all_below-holds (suc n) p k h l =
    let rest = all_below-holds n p k in
    elim (Bool-cases (p n)) [
      | inr e ↦ absurd (ground arith)
      | inl e ↦ elim (Bool-cases (k == n)) [
        | inl f ↦ ap p (==→eq k n f) ∙ e
        | inr f ↦ rest (ground arith) (ground arith)
      ]
    ]

abbrev pub by_table : ℕ → ℕ
by_table c = bit_xor (c * 256 % 65536) (get_or crc16tab (c / 256) 0)

-- on 16 bits the table does eight bits of the division, which stay 16 bits and can be undone
abbrev table_right : ℕ → Bool
table_right c =
    (by_table c == shifts 8 c) && (ltb (by_table c) 65536 && (unshifts 8 (shifts 8 c) == c))

all_table_right : all_below 65536 table_right ≡ true
unfolding all_below
all_table_right = refl

-- two bytes give a byte, from which the one gives the other back
abbrev bytes_right : ℕ → ℕ → Bool
bytes_right a b =
    (bit_and (bit_xor a b) 255 == bit_xor a b)
    && (ltb (bit_xor a b) 256 && ((bit_xor (bit_xor a b) b == a) && (bit_xor a (bit_xor a b) == b)))

all_bytes_right : all_below 256 (λ a. all_below 256 (bytes_right a)) ≡ true
unfolding all_below
all_bytes_right = refl

-- the four answers of `bytes_right`
pub record BytesRight (a b : ℕ) : Type 0 where
  pub masked : bit_and (bit_xor a b) 255 ≡ bit_xor a b
  pub in_byte : bit_xor a b < 256
  pub back_left : bit_xor (bit_xor a b) b ≡ a
  pub back_right : bit_xor a (bit_xor a b) ≡ b

pub bytes-BytesRight : (a b : ℕ) → a < 256 → b < 256 → BytesRight a b
bytes-BytesRight a b h k =
    let t =
      all_below-holds 256 (bytes_right a) b
        (all_below-holds 256 (λ a. all_below 256 (bytes_right a)) a all_bytes_right h) k in
    record {
      masked = ground arith;
      in_byte = ground arith;
      back_left = ground arith;
      back_right = ground arith;
    }

pub record TableRight (c : ℕ) : Type 0 where
  pub divides : by_table c ≡ shifts 8 c
  pub in_range : by_table c < 65536
  pub undone : unshifts 8 (shifts 8 c) ≡ c

and_three :
    (x y u c : ℕ) → (x == y) && (ltb x 65536 && (u == c)) ≡ true → (x ≡ y) × (x < 65536) × (u ≡ c)
and_three x y u c h = (ground arith, ground arith, ground arith)

pub below-TableRight : (c : ℕ) → c < 65536 → TableRight c
below-TableRight c h =
    let t =
      and_three (by_table c) (shifts 8 c) (unshifts 8 (shifts 8 c)) c
        (all_below-holds 65536 table_right c all_table_right h) in
    record { divides = t.0; in_range = t.1; undone = t.2 }
