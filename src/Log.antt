-- ===== src/Log.antt =====
-- src/log.c: messages to the standard output, from a level on. What is printed is a result. The text
-- that `vprintf` makes of the format, and the one of `strftime` in local time, are arguments. A level
-- is not negative.
pub mod Shown
mod Examples
use extlib.Common.{
  ℕ, ◌+◌, ◌/◌, ◌%◌, Bool, ◌&&◌, not, Option, none, some, [], ◌∷◌, ◌++◌, ltb, ◌==◌, if◌then◌else◌,
  length, Outcome, ok, abort, fault, ◌>>=◌, ◌>>◌, assert, Bytes,
}
use extlib.Text.{codes}
use Prim.Native.String.{String}

-- `LOG_LV_NONE` and the others up to `LOG_LV_FATAL`
abbrev pub level_none : ℕ
level_none = 0

abbrev pub level_debug : ℕ
level_debug = 1

abbrev pub level_info : ℕ
level_info = 2

abbrev pub level_notice : ℕ
level_notice = 3

abbrev pub level_warn : ℕ
level_warn = 4

abbrev pub level_error : ℕ
level_error = 5

abbrev pub level_fatal : ℕ
level_fatal = 6

-- `limit`, as the program begins
abbrev pub first_limit : ℕ
first_limit = level_info

-- The former level, and `limit` as it is left.
unfoldable pub log_set_level : ℕ → ℕ → ℕ × ℕ
log_set_level limit level = (limit, level)

-- a letter behind the escape sequence of its colour, and `CL_RESET`
abbrev coloured : String → Bytes
coloured letter = 27 ∷ (codes letter ++ (27 ∷ codes "[0;0m"))

-- the prefix of a level
unfoldable pub prefix_of : ℕ → Option Bytes
prefix_of level =
    if level == level_none
    then some []
    else if level == level_debug
    then some (coloured "[1;36mD")
    else if level == level_info
    then some (coloured "[1;29mI")
    else if level == level_notice
    then some (coloured "[1;29mN")
    else if level == level_warn
    then some (coloured "[1;33mW")
    else if level == level_error
    then some (coloured "[1;31mE")
    else if level == level_fatal
    then some (coloured "[1;31mF")
    else none

-- a text and its NUL in a field of `size` bytes
abbrev pub into_field : ℕ → Bytes → Outcome Bytes
into_field size text = if ltb (length text) size then ok text else fault

abbrev digit : ℕ → ℕ
digit n = b'0' + n % 10

-- `.%04d` of a number below 10000
abbrev pub tenths : ℕ → Bytes
tenths n = b'.' ∷ digit (n / 1000) ∷ digit (n / 100) ∷ digit (n / 10) ∷ digit n ∷ []

-- what is printed behind one another
unfoldable pub line_of : Bytes → Bytes → Bytes → Bytes
line_of time prefix text =
    codes "[" ++ (time ++ (codes "] " ++ (prefix ++ (codes " - " ++ (text ++ (10 ∷ []))))))

-- `__log_message`: its result and what it prints. `date` is what `strftime` writes, and `usec` are the
-- microseconds, fewer than 10^6.
write_message : Bytes → ℕ → ℕ → Bytes → Outcome (ℕ × Bytes)
write_message date usec level text = elim (prefix_of level) [
  | none ↦ ok (1, codes "__log_message: Invalid level passed." ++ (10 ∷ []))
  | some p ↦ do
    prefix ← into_field 40 p
    usec_buf ← into_field 16 (tenths (usec / 100))
    buf ← into_field 32 (date ++ usec_buf)
    ok (0, line_of buf prefix text)
]

-- `log_message`. `format` is `none` for NULL, and `text` what `vprintf` makes of it.
unfoldable pub log_message : ℕ → Bytes → ℕ → ℕ → Option Bytes → Bytes → Outcome (ℕ × Bytes)
unfolding write_message
log_message limit date usec level none text = abort
log_message limit date usec level (some []) text = abort
log_message limit date usec level (some (c ∷ cs)) text =
    if ltb level limit && not (level == level_none)
    then ok (0, [])
    else write_message date usec level text
