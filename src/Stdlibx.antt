-- ===== src/Stdlibx.antt =====
-- src/stdlibx.c: random bytes of the system, and a random UUID printed from them. The numbers of the
-- union lie in memory with their lowest byte first.
pub mod Printed
mod Examples
use extlib.Common.{
  ℕ, ◌+◌, ◌*◌, ◌/◌, ◌%◌, [], ◌∷◌, ◌++◌, ◌==◌, length, get_or, Outcome, ok, ◌>>=◌, ◌>>◌, assert,
  Bytes,
}
use extlib.Text.{hex_char, hex4}

-- `given` is what `getrandom` puts into the memory; it has to be all that was asked for.
pub random_gen : Bytes → ℕ → Outcome Bytes
random_gen given size = do assert (length given == size); ok given

-- the fields of the union
pub record Uuid : Type 0 where
  pub time_low : ℕ
  pub time_mid : ℕ
  pub time_hi_and_version : ℕ
  pub clk_seq_hi_res : ℕ
  pub clk_seq_low : ℕ
  pub node : Bytes

abbrev byte_at : Bytes → ℕ → ℕ
byte_at rnd i = get_or rnd i 0

-- two bytes as a number
abbrev word_at : Bytes → ℕ → ℕ
word_at rnd i = byte_at rnd i + byte_at rnd (i + 1) * 256

unfoldable pub fields_of : Bytes → Uuid
fields_of rnd = record {
  time_low = word_at rnd 0 + word_at rnd 2 * 65536;
  time_mid = word_at rnd 4;
  time_hi_and_version = word_at rnd 6;
  clk_seq_hi_res = byte_at rnd 8;
  clk_seq_low = byte_at rnd 9;
  node =
      byte_at rnd 10
      ∷ byte_at rnd 11
      ∷ byte_at rnd 12
      ∷ byte_at rnd 13
      ∷ byte_at rnd 14
      ∷ byte_at rnd 15
      ∷ [];
}

-- the bits of the version and of the variant
unfoldable pub stamp : Uuid → Uuid
stamp u = record u {
  clk_seq_hi_res = u.clk_seq_hi_res % 64 + 128;
  time_hi_and_version = u.time_hi_and_version % 4096 + 16384;
}

-- `%02x` of a byte
abbrev pub hex2 : ℕ → Bytes
hex2 n = hex_char (n / 16 % 16) ∷ hex_char (n % 16) ∷ []

-- `%08x` of a number of 32 bits
abbrev hex8 : ℕ → Bytes
hex8 n = hex4 (n / 65536) ++ hex4 n

abbrev hex_all : Bytes → Bytes
hex_all [] = []
hex_all (b ∷ bs) = hex2 b ++ hex_all bs

unfoldable pub print_uuid : Uuid → Bytes
print_uuid u =
    hex8 u.time_low
    ++ (b'-'
        ∷ (hex4 u.time_mid
            ++ (b'-'
                ∷ (hex4 u.time_hi_and_version
                    ++ (b'-'
                        ∷ (hex2 u.clk_seq_hi_res
                            ++ (hex2 u.clk_seq_low ++ (b'-' ∷ hex_all u.node))))))))

unfoldable pub uuid_v4_gen : Bytes → Outcome Bytes
uuid_v4_gen given = do rnd ← random_gen given 16; ok (print_uuid (stamp (fields_of rnd)))
