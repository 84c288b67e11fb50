-- ===== src/Module/Listed.antt =====
-- `get_modules` of src/posix/module.c.
use extlib.Common.{◌≡◌, refl, ap, false, List, [], ◌∷◌, overwrite, length, ltb, arith, ok}
use extlib.Module.{Module, Modules, get_modules, get_modules_count}

overwrite-whole : (ms buf : List Module) → length buf ≡ length ms → overwrite buf 0 ms ≡ ms
overwrite-whole [] [] h = refl
overwrite-whole [] (m ∷ buf) h = absurd (omega (arith, h))
overwrite-whole (m ∷ ms) [] h = absurd (omega (arith, h))
overwrite-whole (m ∷ ms) (b ∷ buf) h = ap (λ t. m ∷ t) (overwrite-whole ms buf (omega (arith, h)))

-- An array of `get_modules_count` entries gets exactly the modules, newest first.
pub get_modules-get_modules_count :
    (ms : Modules) (buf : List Module)
    → length buf ≡ get_modules_count ms
    → get_modules ms buf ≡ ok ms.modules
unfolding get_modules
get_modules-get_modules_count ms buf h =
    let room : ltb (length buf) (length ms.modules) ≡ false = ground (arith, h) in
    rw (room, overwrite-whole ms.modules buf h) refl
