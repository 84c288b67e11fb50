-- ===== src/Err/Examples.antt =====
-- Messages of errors.
use extlib.Common.{ℕ, ◌+◌, ◌≡◌, refl, [], ◌∷◌, Bytes}
use extlib.Text.{codes}
use extlib.Err.{calc_tag, empty_table, errx_strerr, register_all, errno_map, errx_init}
use extlib.Err.Table.{message, note_all, register_all-message}

-- the tag of "0"
tag_of_zero : calc_tag (48 ∷ []) ≡ 0xffffffcf
unfolding calc_tag
tag_of_zero = refl

-- one digit, which is enough for the errors of the library
abbrev digit : ℕ → Bytes
digit n = (48 + n) ∷ []

register_all-message_example :
    ((register_all digit errno_map empty_table).0 ≡ (note_all errno_map []).0)
    × (errx_strerr digit (errx_init digit) 4 ≡ codes "operation timeout")
unfolding message errx_init
register_all-message_example = register_all-message digit errno_map 4
