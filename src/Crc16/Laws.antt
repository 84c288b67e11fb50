-- ===== src/Crc16/Laws.antt =====
-- The checksum is the remainder of the division, over any pieces, and notices a changed byte.
use extlib.Common.{
  ℕ, ◌*◌, ◌+◌, ◌/◌, ◌%◌, ◌<◌, ◌≡◌, ◌≢◌, refl, sym, ap, ap₂, ◌∙◌, [], ◌∷◌, ◌++◌, get_or, All, Bytes,
  arith,
}
use Prim.Native.Nat.{bit_xor, bit_and}
use extlib.Crc16.{crc16tab, round, crc16_crc, crc16}
use extlib.Crc16.Reference.{
  mix, unshifts, by_table, reference_round, xmodem, bytes-BytesRight, below-TableRight,
}

abbrev pub AreBytes : Bytes → Type 0
AreBytes buf = All (λ b. b < 256) buf

mix-below : (crc byte : ℕ) → crc < 65536 → byte < 256 → mix crc byte < 65536
mix-below crc byte h k =
    let b = bytes-BytesRight (crc / 256) byte (omega arith) k in let l = b.in_byte in omega arith

round-by_table :
    (crc byte : ℕ) → crc < 65536 → byte < 256 → round crc byte ≡ by_table (mix crc byte)
unfolding round
round-by_table crc byte h k =
    let b = bytes-BytesRight (crc / 256) byte (omega arith) k in
    let x = bit_xor (crc / 256) byte in
    let low : crc * 256 % 65536 ≡ (x * 256 + crc % 256) * 256 % 65536 = omega arith in
    let high : bit_and x 255 ≡ (x * 256 + crc % 256) / 256 = b.masked ∙ omega arith in
    ap₂ (λ l t. bit_xor l (get_or crc16tab t 0)) low high

round-reference :
    (crc byte : ℕ)
    → crc < 65536
    → byte < 256
    → (round crc byte ≡ reference_round crc byte) × (round crc byte < 65536)
round-reference crc byte h k =
    let t = below-TableRight (mix crc byte) (mix-below crc byte h k) in
    let e = round-by_table crc byte h k in (e ∙ t.divides, rw e t.in_range)

-- The table computes the remainder of the division by the polynomial, bit by bit, from any start
-- of 16 bits and over any bytes, and it stays in 16 bits.
pub crc16_crc-xmodem :
    (crc : ℕ) (buf : Bytes)
    → crc < 65536
    → AreBytes buf
    → (crc16_crc crc buf ≡ xmodem crc buf) × (crc16_crc crc buf < 65536)
unfolding crc16_crc
crc16_crc-xmodem crc [] h bytes = (refl, h)
crc16_crc-xmodem crc (byte ∷ buf) h (k, bytes) =
    let r = round-reference crc byte h k in
    let ih = crc16_crc-xmodem (round crc byte) buf r.1 bytes in
    (ih.0 ∙ ap (λ c. xmodem c buf) r.0, ih.1)

-- The checksum of two pieces, the second continued from the first, is that of the whole.
pub crc16_crc-append :
    (crc : ℕ) (xs ys : Bytes) → crc16_crc (crc16_crc crc xs) ys ≡ crc16_crc crc (xs ++ ys)
unfolding crc16_crc
crc16_crc-append crc [] ys = refl
crc16_crc-append crc (x ∷ xs) ys = crc16_crc-append (round crc x) xs ys

-- what a round leaves determines what it began with
mix_from_round :
    (c d a b : ℕ)
    → c < 65536
    → d < 65536
    → a < 256
    → b < 256
    → round c a ≡ round d b
    → mix c a ≡ mix d b
mix_from_round c d a b hc hd ha hb e =
    let s = below-TableRight (mix c a) (mix-below c a hc ha) in
    let t = below-TableRight (mix d b) (mix-below d b hd hb) in
    let same : reference_round c a ≡ reference_round d b =
      sym (round-reference c a hc ha).0 ∙ e ∙ (round-reference d b hd hb).0 in
    sym s.undone ∙ ap (unshifts 8) same ∙ t.undone

mix_halves :
    (c d a b : ℕ)
    → mix c a ≡ mix d b
    → (bit_xor (c / 256) a ≡ bit_xor (d / 256) b) × (c % 256 ≡ d % 256)
mix_halves c d a b e = (omega arith, omega arith)

round_same_byte : (c d a : ℕ) → c < 65536 → d < 65536 → a < 256 → round c a ≡ round d a → c ≡ d
round_same_byte c d a hc hd ha e =
    let m = mix_halves c d a a (mix_from_round c d a a hc hd ha ha e) in
    let s = bytes-BytesRight (c / 256) a (omega arith) ha in
    let t = bytes-BytesRight (d / 256) a (omega arith) ha in
    let top : c / 256 ≡ d / 256 = sym s.back_left ∙ ap (λ x. bit_xor x a) m.0 ∙ t.back_left in
    let low = m.1 in omega arith

round_same_crc : (c a b : ℕ) → c < 65536 → a < 256 → b < 256 → round c a ≡ round c b → a ≡ b
round_same_crc c a b hc ha hb e =
    let m = mix_halves c c a b (mix_from_round c c a b hc hc ha hb e) in
    let s = bytes-BytesRight (c / 256) a (omega arith) ha in
    let t = bytes-BytesRight (c / 256) b (omega arith) hb in
    sym s.back_right ∙ ap (bit_xor (c / 256)) m.0 ∙ t.back_right

crc16_crc_same :
    (c d : ℕ) (ys : Bytes)
    → c < 65536
    → d < 65536
    → AreBytes ys
    → crc16_crc c ys ≡ crc16_crc d ys
    → c ≡ d
unfolding crc16_crc
crc16_crc_same c d [] hc hd bytes e = e
crc16_crc_same c d (y ∷ ys) hc hd (h, bytes) e = round_same_byte c d y hc hd h (
    crc16_crc_same (round c y) (round d y) ys (round-reference c y hc h).1
      (round-reference d y hd h).1 bytes e)

-- Two texts that differ in one byte have different checksums.
pub crc16-notices :
    (xs : Bytes) (a b : ℕ) (ys : Bytes)
    → AreBytes xs
    → a < 256
    → b < 256
    → AreBytes ys
    → a ≢ b
    → crc16 (xs ++ (a ∷ ys)) ≢ crc16 (xs ++ (b ∷ ys))
unfolding crc16 crc16_crc
crc16-notices xs a b ys hx ha hb hy ne e =
    let c = crc16_crc 0 xs in
    let hc = (crc16_crc-xmodem 0 xs (omega arith) hx).1 in
    let whole : crc16_crc (round c a) ys ≡ crc16_crc (round c b) ys =
      crc16_crc-append 0 xs (a ∷ ys) ∙ e ∙ sym (crc16_crc-append 0 xs (b ∷ ys)) in
    ne (
      round_same_crc c a b hc ha hb (
        crc16_crc_same (round c a) (round c b) ys (round-reference c a hc ha).1
          (round-reference c b hc hb).1 hy whole))
