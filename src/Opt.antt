-- ===== src/Opt.antt =====
-- src/opt.c: the options of a program, set from its arguments or from a file. What `strtol` makes of a
-- text is an argument, with `Int` for its numbers, and so is the text that `%d` gives.
pub mod Kinds
mod Examples
use extlib.Common.{
  ℕ, zero, suc, ◌+◌, Bool, true, false, not, ◌&&◌, ◌||◌, Option, none, some, List, [], ◌∷◌, ◌==◌,
  leb, if◌then◌else◌, take, drop, Outcome, ok, abort, ◌>>=◌, ◌>>◌, assert, Bytes,
}
use extlib.Text.{codes, same_text, starts, is_space}
use extlib.Stringx.{trim}
use extlib.Srrp.Next.{find_char}

-- `enum opt_type`, with the value of each kind. A static text is not the program's to free.
pub data OptValue (Int : Type 0) : Type 0 where
  no_value : OptValue Int
  string_static string : Bytes → OptValue Int
  integer : Int → OptValue Int
  boolean : Bool → OptValue Int

-- `struct opt`; a table ends where `optshort` is NULL.
pub record Opt (Int : Type 0) : Type 0 where
  pub optshort : Bytes
  pub key : Bytes
  pub value : OptValue Int
  pub desc : Bytes

-- the `OPTERR_` codes
pub data OptErr : Type 0 where
  no_error unknown_opt miss_arg wrong_value file_open_failed : OptErr

-- what `strcasecmp` compares
abbrev lower : Bytes → Bytes
lower [] = []
lower (c ∷ s) = (if leb 65 c && leb c 90 then c + 32 else c) ∷ lower s

abbrev pub same_caseless : Bytes → Bytes → Bool
same_caseless a b = same_text (lower a) (lower b)

-- `convert_bool`; all else is false
pub convert_bool : Bytes → Bool
convert_bool str =
    same_caseless str (codes "on")
    || (same_caseless str (codes "yes") || same_caseless str (codes "true"))

abbrev pub is_boolean : {Int : Type 0} → OptValue Int → Bool
is_boolean (boolean b) = true
is_boolean v = false

-- `__find_opt`, which compares in the length of what is given, and `find_opt`, by their tests.
pub find_by : {Int : Type 0} → (Opt Int → Bool) → List (Opt Int) → Option (Opt Int)
find_by test [] = none
find_by test (o ∷ os) = if test o then some o else find_by test os

-- the table with the value of the option that was found
pub set_by : {Int : Type 0} → (Opt Int → Bool) → OptValue Int → List (Opt Int) → List (Opt Int)
set_by test v [] = []
set_by test v (o ∷ os) =
    let rest = set_by test v os in if test o then record o { value = v } ∷ os else o ∷ rest

abbrev pub by_short : {Int : Type 0} → Bytes → Opt Int → Bool
by_short z o = starts z o.optshort

abbrev pub by_key : {Int : Type 0} → Bytes → Opt Int → Bool
by_key key o = same_caseless key o.key

-- `strchr(optshort, ':')` finds something
abbrev pub takes_argument : {Int : Type 0} → Opt Int → Bool
takes_argument o = elim (find_char 58 o.optshort) [ none ↦ false | some i ↦ true ]

abbrev pub is_dashed : Bytes → Bool
is_dashed [] = false
is_dashed (c ∷ s) = c == 45

-- `%1023[^:]: %1023[^\r\n]` on a line that is no longer than that
abbrev skip_spaces : Bytes → Bytes
skip_spaces [] = []
skip_spaces (c ∷ s) = let rest = skip_spaces s in if is_space c then rest else c ∷ s

abbrev to_line_end : Bytes → Bytes
to_line_end [] = []
to_line_end (c ∷ s) = let rest = to_line_end s in if (c == 13) || (c == 10) then [] else c ∷ rest

pub scan_line : Bytes → Option (Bytes × Bytes)
scan_line line = elim (find_char 58 line) [
  | none ↦ none
  | some zero ↦ none
  | some (suc i) ↦ elim (to_line_end (skip_spaces (drop (suc (suc i)) line))) [
    | [] ↦ none
    | c ∷ w2 ↦ some (take (suc i) line, c ∷ w2)
  ]
]

-- the comments and the empty line
abbrev is_comment : Bytes → Bool
is_comment line = starts (codes "#") line || (starts (codes "//") line || same_text line (10 ∷ []))

module _ {Int : Type 0} (strtol : Bytes → Int) where
  -- `opt_parse_value`
  pub parse_value : OptValue Int → Bytes → OptValue Int
  parse_value no_value str = no_value
  parse_value (string_static s) str = string (trim str 0)
  parse_value (string s) str = string (trim str 0)
  parse_value (integer i) str = integer (strtol str)
  parse_value (boolean b) str = boolean (convert_bool str)

  -- `opt_init_from_arg` on the arguments behind the name of the program, with `index_args` so far
  pub init_from_args : (ℕ → Bytes) → ℕ → List Bytes → List (Opt Int) → OptErr × List (Opt Int)
  init_from_args print index_args [] opttab = (no_error, opttab)
  init_from_args print index_args (z ∷ []) opttab =
      if is_dashed z
      then elim (find_by (by_short z) opttab) [
        | none ↦ (unknown_opt, opttab)
        | some tmp ↦
            if takes_argument tmp
            then (miss_arg, opttab)
            else if is_boolean tmp.value
            then (no_error, set_by (by_short z) (boolean true) opttab)
            else (wrong_value, opttab)
      ]
      else elim (find_by (by_short (print index_args)) opttab) [
        | none ↦ (unknown_opt, opttab)
        | some tmp ↦
            (no_error, set_by (by_short (print index_args)) (parse_value tmp.value z) opttab)
      ]
  init_from_args print index_args (z ∷ a ∷ args) opttab =
      if is_dashed z
      then elim (find_by (by_short z) opttab) [
        | none ↦ (unknown_opt, opttab)
        | some tmp ↦
            let with_argument =
              init_from_args print index_args args
                (set_by (by_short z) (parse_value tmp.value a) opttab) in
            let set =
              init_from_args print index_args (a ∷ args)
                (set_by (by_short z) (boolean true) opttab) in
            if takes_argument tmp
            then (if is_dashed a then (miss_arg, opttab) else with_argument)
            else if is_boolean tmp.value
            then set
            else (wrong_value, opttab)
      ]
      else elim (find_by (by_short (print index_args)) opttab) [
        | none ↦ (unknown_opt, opttab)
        | some tmp ↦
            init_from_args print (suc index_args) (a ∷ args)
              (set_by (by_short (print index_args)) (parse_value tmp.value z) opttab)
      ]

  -- The loop of `opt_init_from_file` over the lines that `fgets` gives.
  pub init_from_lines : List Bytes → List (Opt Int) → OptErr × List (Opt Int)
  init_from_lines [] opttab = (no_error, opttab)
  init_from_lines (line ∷ lines) opttab =
      if is_comment line then init_from_lines lines opttab else elim (scan_line line) [
        | none ↦ init_from_lines lines opttab
        | some (w1, w2) ↦ elim (find_by (by_key w1) opttab) [
          | none ↦ (unknown_opt, opttab)
          | some tmp ↦ init_from_lines lines (set_by (by_key w1) (parse_value tmp.value w2) opttab)
        ]
      ]

  -- `none` where the file cannot be opened
  pub opt_init_from_file : Option (List Bytes) → List (Opt Int) → OptErr × List (Opt Int)
  opt_init_from_file none opttab = (file_open_failed, opttab)
  opt_init_from_file (some lines) opttab = init_from_lines lines opttab

-- `opt_string`, `opt_int` and `opt_bool`
pub opt_string : {Int : Type 0} → Opt Int → Outcome Bytes
opt_string o = elim o.value [
  | no_value ↦ abort
  | string_static s ↦ ok s
  | string s ↦ ok s
  | integer i ↦ abort
  | boolean b ↦ abort
]

pub opt_int : {Int : Type 0} → Opt Int → Outcome Int
opt_int o = elim o.value [
  | no_value ↦ abort
  | string_static s ↦ abort
  | string s ↦ abort
  | integer i ↦ ok i
  | boolean b ↦ abort
]

pub opt_bool : {Int : Type 0} → Opt Int → Outcome Bool
opt_bool o = elim o.value [
  | no_value ↦ abort
  | string_static s ↦ abort
  | string s ↦ abort
  | integer i ↦ abort
  | boolean b ↦ ok b
]
