-- ===== src/Stringx/Examples.antt =====
-- A text between spaces.
use extlib.Common.{ℕ, ◌≡◌, refl, ◌++◌, replicate}
use extlib.Text.{codes}
use extlib.Stringx.{trim, BeginsNot, EndsNot, trim-parts}

trim_spaces : trim (codes "  a b ") 0 ≡ codes "a b"
unfolding trim
trim_spaces = refl

trim-parts_example :
    (i : ℕ) × (j : ℕ) × (codes "  a b "
      ≡ replicate i 32 ++ (trim (codes "  a b ") 32 ++ replicate j 32))
    × BeginsNot 32 (trim (codes "  a b ") 32)
    × EndsNot 32 (trim (codes "  a b ") 32)
trim-parts_example = trim-parts (codes "  a b ") 32 refl
