-- ===== src/Json.antt =====
-- src/json.c: values at a path of keys. A text is the bytes before its NUL, and a place in it what
-- stands from there on; `Int` are the numbers of `atoi`.
pub mod Number
mod Examples
use extlib.Common.{
  ℕ, zero, suc, ◌+◌, Bool, true, false, not, ◌&&◌, ◌||◌, Option, none, some, List, [], ◌∷◌, ◌++◌,
  ◌==◌, ltb, leb, if◌then◌else◌, take, drop, length, sub_size, Bytes,
}
use extlib.Text.{starts, is_digit}

-- What a call comes to: a value, an error code with -1, a failed assertion, or an access outside an
-- object.
pub data Found (A : Type 0) : Type 0 where
  found : A → Found A
  key_error type_error brace_error failed_assertion outside : Found A

-- the keys of a path, which is to begin with '/'
pub keys_of : Bytes → List Bytes
keys_of [] = [] ∷ []
keys_of (c ∷ path) = elim (keys_of path) [
  | [] ↦ (c ∷ []) ∷ []
  | key ∷ keys ↦ if c == 47 then [] ∷ key ∷ keys else (c ∷ key) ∷ keys
]

abbrev pub is_empty : Bytes → Bool
is_empty [] = true
is_empty (c ∷ s) = false

-- What stands behind the first place of the key with one more '{' than '}' before it.
pub find_key : Bytes → (opened closed : ℕ) → Bytes → Option Bytes
find_key key opened closed [] = none
find_key key opened closed (c ∷ str) =
    let on_open = find_key key (suc opened) closed str in
    let on_close = find_key key opened (suc closed) str in
    let on_other = find_key key opened closed str in
    if c == 123
    then on_open
    else if c == 125
    then on_close
    else if (opened == suc closed) && (not (is_empty key) && starts key (c ∷ str))
    then some (drop (length key) (c ∷ str))
    else on_other

-- the loops that pass over ' ' and ':'
pub skip_colon : Bytes → Bytes
skip_colon [] = []
skip_colon (c ∷ str) = let rest = skip_colon str in if (c == 32) || (c == 58) then rest else c ∷ str

-- `json_walk` along the keys
pub walk_keys : List Bytes → Bytes → Found Bytes
walk_keys [] str = failed_assertion
walk_keys (key ∷ []) str =
    if is_empty key
    then failed_assertion
    else elim (find_key key 0 0 str) [ none ↦ key_error | some rest ↦ found rest ]
walk_keys (key ∷ next ∷ keys) str = elim (find_key key 0 0 str) [
  | none ↦ key_error
  | some rest ↦ elim (skip_colon rest) [
    | [] ↦ key_error
    | c ∷ inner ↦ if c == 123 then walk_keys (next ∷ keys) (c ∷ inner) else type_error
  ]
]

pub json_walk : Bytes → Bytes → Found Bytes
json_walk str [] = failed_assertion
json_walk str (c ∷ path) = if c == 47 then walk_keys (keys_of path) str else failed_assertion

-- the text that the digits make, and what stands behind
pub span_digits : Bytes → Bytes × Bytes
span_digits [] = ([], [])
span_digits (c ∷ str) =
    let (digits, rest) = span_digits str in if is_digit c then (c ∷ digits, rest) else ([], c ∷ str)

-- What has to stand behind a value: spaces, and then ',' or '}'.
pub ends_value : {A : Type 0} → A → Bytes → Found A
ends_value value [] = brace_error
ends_value value (c ∷ str) =
    let rest = ends_value value str in
    if c == 32 then rest else if (c == 44) || (c == 125) then found value else type_error

-- `atoi` of what is copied into 32 bytes, which need a NUL
pub number_of : {Int : Type 0} → (Bytes → Int) → Found Bytes → Found Int
number_of atoi (found digits) = if ltb (length digits) 32 then found (atoi digits) else outside
number_of atoi key_error = key_error
number_of atoi type_error = type_error
number_of atoi brace_error = brace_error
number_of atoi failed_assertion = failed_assertion
number_of atoi outside = outside

-- `__json_get_int` from the place that was walked to
pub get_int_at : {Int : Type 0} → (Bytes → Int) → Bytes → Found Int
get_int_at atoi str = elim (skip_colon str) [
  | [] ↦ type_error
  | c ∷ value ↦
      if is_digit c
      then (let (digits, rest) = span_digits (c ∷ value) in number_of atoi (ends_value digits rest))
      else type_error
]

pub json_get_int : {Int : Type 0} → (Bytes → Int) → Bytes → Bytes → Found Int
json_get_int atoi str path = elim (json_walk str path) [
  | found rest ↦ get_int_at atoi rest
  | key_error ↦ key_error
  | type_error ↦ type_error
  | brace_error ↦ brace_error
  | failed_assertion ↦ failed_assertion
  | outside ↦ outside
]

abbrev pub is_print : ℕ → Bool
is_print c = leb 32 c && leb c 126

-- printable, and no ' ', ',' or '}'
abbrev pub is_value_char : ℕ → Bool
is_value_char c = is_print c && not ((c == 32) || ((c == 44) || (c == 125)))

pub span_value : Bytes → Bytes × Bytes
span_value [] = ([], [])
span_value (c ∷ str) =
    let (value, rest) = span_value str in
    if is_value_char c then (c ∷ value, rest) else ([], c ∷ str)

abbrev pub last_or : ℕ → Bytes → ℕ
last_or d [] = d
last_or d (c ∷ s) = last_or c s

-- What is copied of a value between quotes, of which `behind` is the memory behind the first. The
-- lengths are `size_t`, so that of a single quote wraps around.
pub unquote : ℕ → Bytes → Bytes → Found Bytes
unquote size [] behind = type_error
unquote size (q ∷ value) behind =
    let n = sub_size (length (q ∷ value)) 2 in
    let room = sub_size size 1 in
    let m = if ltb room n then room else n in
    if ((q == 39) || (q == 34)) && (q == last_or q value)
    then if leb m (length behind) then found (take m behind) else outside
    else type_error

-- `__json_get_string` from the place that was walked to
pub get_string_at : ℕ → Bytes → Found Bytes
get_string_at size str = elim (skip_colon str) [
  | [] ↦ type_error
  | c ∷ value ↦
      if is_print c
      then elim (ends_value (span_value (c ∷ value)).0 (span_value (c ∷ value)).1) [
        | found quoted ↦ unquote size quoted (value ++ (0 ∷ []))
        | key_error ↦ key_error
        | type_error ↦ type_error
        | brace_error ↦ brace_error
        | failed_assertion ↦ failed_assertion
        | outside ↦ outside
      ]
      else type_error
]

pub json_get_string : ℕ → Bytes → Bytes → Found Bytes
json_get_string size str path = elim (json_walk str path) [
  | found rest ↦ get_string_at size rest
  | key_error ↦ key_error
  | type_error ↦ type_error
  | brace_error ↦ brace_error
  | failed_assertion ↦ failed_assertion
  | outside ↦ outside
]
