-- ===== src/Stdlibx/Printed.antt =====
-- The text of a UUID of version 4.
use extlib.Common.{
  ℕ, ◌≤◌, ◌<◌, ◌≡◌, ◌⊎◌, refl, ap, Bool, true, ◌&&◌, ◌||◌, [], ◌∷◌, ◌++◌, arith, leb, ◌==◌, ◌/◌,
  ◌%◌, length, get_or, All, All-append, ok, Bytes,
}
use extlib.Text.{is_digit, hex_char, hex4}
use extlib.Stdlibx.{
  random_gen, Uuid, fields_of, stamp, hex2, hex8, hex_all, print_uuid, uuid_v4_gen,
}

-- a hexadecimal digit, in small letters, or a dash
abbrev is_uuid_char : ℕ → Bool
is_uuid_char c = is_digit c || ((leb b'a' c && leb c b'f') || (c == b'-'))

-- What RFC 4122 says of the text: 36 characters, dashes behind the 8th, 12th, 16th and 20th digit,
-- version 4 and a variant of 8, 9, a or b.
pub record IsUuidText (text : Bytes) : Type 0 where
  pub size : length text ≡ 36
  pub first_dash : get_or text 8 0 ≡ b'-'
  pub second_dash : get_or text 13 0 ≡ b'-'
  pub third_dash : get_or text 18 0 ≡ b'-'
  pub fourth_dash : get_or text 23 0 ≡ b'-'
  pub version : get_or text 14 0 ≡ b'4'
  pub variant :
      (get_or text 19 0 ≡ b'8')
      ⊎ ((get_or text 19 0 ≡ b'9') ⊎ ((get_or text 19 0 ≡ b'a') ⊎ (get_or text 19 0 ≡ b'b')))
  pub characters : All (λ c. is_uuid_char c ≡ true) text

hex_char-digit : (d : ℕ) → d < 16 → is_uuid_char (hex_char d) ≡ true
unfolding hex_char
hex_char-digit d h = ground arith

hex4-digits : (n : ℕ) → All (λ c. is_uuid_char c ≡ true) (hex4 n)
unfolding hex4
hex4-digits n = (
  hex_char-digit (n / 4096 % 16) (omega arith),
  (
    hex_char-digit (n / 256 % 16) (omega arith),
    (hex_char-digit (n / 16 % 16) (omega arith), (hex_char-digit (n % 16) (omega arith), tt)),
  ),
)

hex2-digits : (n : ℕ) → All (λ c. is_uuid_char c ≡ true) (hex2 n)
hex2-digits n =
    (hex_char-digit (n / 16 % 16) (omega arith), (hex_char-digit (n % 16) (omega arith), tt))

hex_all-digits : (bytes : Bytes) → All (λ c. is_uuid_char c ≡ true) (hex_all bytes)
hex_all-digits [] = tt
hex_all-digits (b ∷ bs) = All-append _ (hex2 b) (hex_all bs) (hex2-digits b) (hex_all-digits bs)

hex8-digits : (n : ℕ) → All (λ c. is_uuid_char c ≡ true) (hex8 n)
hex8-digits n = All-append _ (hex4 (n / 65536)) (hex4 n) (hex4-digits (n / 65536)) (hex4-digits n)

-- digits and a dash in front of what is printed already
behind :
    (digits rest : Bytes)
    → All (λ c. is_uuid_char c ≡ true) digits
    → All (λ c. is_uuid_char c ≡ true) rest
    → All (λ c. is_uuid_char c ≡ true) (digits ++ (b'-' ∷ rest))
behind digits rest h k = All-append _ digits (b'-' ∷ rest) h (refl, k)

print_uuid-digits : (u : Uuid) → All (λ c. is_uuid_char c ≡ true) (print_uuid u)
unfolding print_uuid
print_uuid-digits u =
    let low = hex2 u.clk_seq_low in
    let e = behind low (hex_all u.node) (hex2-digits u.clk_seq_low) (hex_all-digits u.node) in
    let tail = low ++ (b'-' ∷ hex_all u.node) in
    let variant = hex2 u.clk_seq_hi_res in
    let d = All-append (λ c. is_uuid_char c ≡ true) variant tail (hex2-digits u.clk_seq_hi_res) e in
    let version = hex4 u.time_hi_and_version in
    let c = behind version (variant ++ tail) (hex4-digits u.time_hi_and_version) d in
    let mid = hex4 u.time_mid in
    let b = behind mid (version ++ (b'-' ∷ (variant ++ tail))) (hex4-digits u.time_mid) c in
    behind (hex8 u.time_low) (mid ++ (b'-' ∷ (version ++ (b'-' ∷ (variant ++ tail)))))
      (hex8-digits u.time_low) b

-- the character of the variant
variant_char :
    (d : ℕ)
    → 8 ≤ d
    → d < 12
    → (hex_char d ≡ b'8') ⊎ ((hex_char d ≡ b'9') ⊎ ((hex_char d ≡ b'a') ⊎ (hex_char d ≡ b'b')))
unfolding hex_char
variant_char d low high = ground arith

-- From any 16 random bytes comes a text as RFC 4122 has it for version 4.
pub uuid_v4_gen-IsUuidText :
    (given : Bytes)
    → length given ≡ 16
    → (text : Bytes) × (uuid_v4_gen given ≡ ok text) × IsUuidText text
unfolding uuid_v4_gen random_gen print_uuid stamp fields_of hex4
uuid_v4_gen-IsUuidText given e =
    let whole : (length given == 16) ≡ true = ground (arith, e) in
    let u = stamp (fields_of given) in
    let version_digit : u.time_hi_and_version / 4096 % 16 ≡ 4 = omega arith in
    (
      print_uuid u,
      rw (whole, random_gen) refl,
      record {
        size = refl;
        first_dash = refl;
        second_dash = refl;
        third_dash = refl;
        fourth_dash = refl;
        version = ap hex_char version_digit;
        variant = variant_char (u.clk_seq_hi_res / 16 % 16) (omega arith) (omega arith);
        characters = print_uuid-digits u;
      },
    )
