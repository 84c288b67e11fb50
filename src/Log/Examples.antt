-- ===== src/Log/Examples.antt =====
-- One message at two levels.
use extlib.Common.{◌≡◌, refl, some, [], ◌∷◌, ◌++◌, ok, abort, Bytes}
use extlib.Text.{codes}
use extlib.Log.{
  level_none, level_debug, first_limit, log_set_level, write_message, prefix_of, line_of,
  log_message,
}

abbrev date : Bytes
date = codes "2026-11-26 07:08:29"

-- debugging is not shown at first
debug_hidden :
    log_message first_limit date 12345 level_debug (some (codes "%d")) (codes "7") ≡ ok (0, [])
unfolding log_message
debug_hidden = refl

none_shown :
    log_message first_limit date 12345 level_none (some (codes "%d")) (codes "7")
    ≡ ok (0, codes "[2026-11-26 07:08:29.0123]  - 7\n")
unfolding log_message write_message prefix_of line_of
none_shown = refl

debug_shown :
    log_message
      (log_set_level first_limit level_debug).1
      date
      12345
      level_debug
      (some (codes "%d"))
      (codes "7")
    ≡ ok (
      0,
      line_of
          (codes "2026-11-26 07:08:29.0123")
          (27 ∷ (codes "[1;36mD" ++ (27 ∷ codes "[0;0m")))
          (codes "7"),
    )
unfolding log_message log_set_level write_message prefix_of
debug_shown = refl

no_format : log_message first_limit date 0 level_none (some []) [] ≡ abort
unfolding log_message
no_format = refl
