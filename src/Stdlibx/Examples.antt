-- ===== src/Stdlibx/Examples.antt =====
-- A UUID from 16 given bytes.
use extlib.Common.{◌≡◌, refl, [], ◌∷◌, ok, Bytes}
use extlib.Text.{codes, hex_char, hex4}
use extlib.Stdlibx.{random_gen, fields_of, stamp, print_uuid, uuid_v4_gen}
use extlib.Stdlibx.Printed.{IsUuidText, uuid_v4_gen-IsUuidText}

abbrev given : Bytes
given = 1 ∷ 2 ∷ 3 ∷ 4 ∷ 5 ∷ 6 ∷ 7 ∷ 255 ∷ 255 ∷ 10 ∷ 11 ∷ 12 ∷ 13 ∷ 14 ∷ 15 ∷ 16 ∷ []

uuid_of_given : uuid_v4_gen given ≡ ok (codes "04030201-0605-4f07-bf0a-0b0c0d0e0f10")
unfolding uuid_v4_gen random_gen print_uuid stamp fields_of hex4 hex_char
uuid_of_given = refl

uuid_v4_gen-IsUuidText_example : (text : Bytes) × (uuid_v4_gen given ≡ ok text) × IsUuidText text
uuid_v4_gen-IsUuidText_example = uuid_v4_gen-IsUuidText given refl
