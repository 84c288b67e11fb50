-- ===== src/Module/Param.antt =====
-- The parameters of a module in src/posix/module.c: `name=value` parted by spaces, where a value may
-- stand in quotes.
use extlib.Common.{
  ℕ, suc, ◌-◌, ◌≡◌, refl, ap, ◌∙◌, true, false, Option, none, some, [], ◌∷◌, ◌++◌, ◌==◌, take, drop,
  length, replicate, drop-append, take-append, arith, Bytes,
}
use extlib.Text.{starts, find_text}
use extlib.Text.Search.{Lacks, find_text_behind}
use extlib.Srrp.Next.{find_char}

-- the text behind the first '=' behind the first place of the name
value_start : Bytes → Bytes → Option Bytes
value_start name param = elim (find_text name param) [
  | none ↦ none
  | some i ↦
      let start = drop i param in
      elim (find_char 61 start) [ none ↦ none | some j ↦ some (drop (suc j) start) ]
]

-- up to the next space, or to the end
plain_value : Bytes → Bytes
plain_value start = elim (find_char 32 start) [ none ↦ start | some k ↦ take k start ]

-- between quotes, or plain
value_at : Bytes → Option Bytes
unfolding plain_value
value_at [] = some []
value_at (c ∷ start) = elim (c == 34) [
  | true ↦ elim (find_char 34 start) [ none ↦ none | some k ↦ some (take k start) ]
  | false ↦ some (plain_value (c ∷ start))
]

-- the buffer with as much of the value as leaves it a NUL
pub buffer_of : ℕ → Bytes → Bytes
buffer_of size value =
    let copied = take (size - 1) value in copied ++ replicate (size - length copied) 0

-- `param_get_string`: the buffer, or `none` for -1. The size is not 0.
pub param_get_string : Bytes → ℕ → Option Bytes → Option Bytes
unfolding value_start value_at buffer_of
param_get_string name size none = none
param_get_string name size (some param) = elim (value_start name param) [
  | none ↦ none
  | some start ↦ elim (value_at start) [ none ↦ none | some value ↦ some (buffer_of size value) ]
]

-- `param_get_int`, with what `atoi` makes of a text
pub param_get_int : {Int : Type 0} → (Bytes → Int) → Bytes → Option Bytes → Option Int
unfolding value_start plain_value
param_get_int atoi name none = none
param_get_int atoi name (some param) = elim (value_start name param) [
  | none ↦ none
  | some start ↦ some (atoi (plain_value start))
]

find_char_behind :
    (c : ℕ) (xs ys : Bytes) → Lacks c xs → find_char c (xs ++ (c ∷ ys)) ≡ some (length xs)
unfolding find_char
find_char_behind c [] ys h = ground arith
find_char_behind c (x ∷ xs) ys (k, h) = ground (arith, find_char_behind c xs ys h)

starts-append : (xs ys : Bytes) → starts xs (xs ++ ys) ≡ true
unfolding starts
starts-append [] ys = refl
starts-append (x ∷ xs) ys = ground (arith, starts-append xs ys)

drop_past : (c : ℕ) (xs ys : Bytes) → drop (suc (length xs)) (xs ++ (c ∷ ys)) ≡ ys
drop_past c [] ys = refl
drop_past c (x ∷ xs) ys = drop_past c xs ys

-- the parameters `before`, a name, and what stands behind its '='
abbrev pub param_text : Bytes → Bytes → Bytes → Bytes
param_text before name start = before ++ (name ++ (61 ∷ start))

value_start-param_text :
    (before : Bytes) (n : ℕ) (name start : Bytes)
    → Lacks n before
    → Lacks 61 (n ∷ name)
    → value_start (n ∷ name) (param_text before (n ∷ name) start) ≡ some start
unfolding value_start
value_start-param_text before n name start first plain =
    let text = (n ∷ name) ++ (61 ∷ start) in
    rw
      (
        find_text_behind n name before text first (starts-append (n ∷ name) (61 ∷ start)),
        drop-append before text,
        find_char_behind 61 (n ∷ name) start plain,
        value_start,
      )
      (ap (λ t. some (drop (suc (length (n ∷ name))) t)) (drop-append before text)
        ∙ ap some (drop_past 61 (n ∷ name) start))

plain_value-eq : (value rest : Bytes) → Lacks 32 value → plain_value (value ++ (32 ∷ rest)) ≡ value
unfolding plain_value
plain_value-eq value rest h =
    rw (find_char_behind 32 value rest h, take-append value (32 ∷ rest), plain_value) refl

-- The value of the first place of a name, whether a name begins there or not, is taken up to the next
-- space, or between its quotes; the buffer has its beginning and a NUL.
pub param_get_string-plain :
    (before : Bytes) (n : ℕ) (name : Bytes) (v : ℕ) (value rest : Bytes) (size : ℕ)
    → Lacks n before
    → Lacks 61 (n ∷ name)
    → Lacks 32 (v ∷ value)
    → (v == 34) ≡ false
    → param_get_string
        (n ∷ name)
        size
        (some (param_text before (n ∷ name) ((v ∷ value) ++ (32 ∷ rest))))
      ≡ some (buffer_of size (v ∷ value))
unfolding param_get_string value_at
param_get_string-plain before n name v value rest size first plain spaceless unquoted =
    rw
      (
        value_start-param_text before n name ((v ∷ value) ++ (32 ∷ rest)) first plain,
        unquoted,
        plain_value-eq (v ∷ value) rest spaceless,
        value_at,
        param_get_string,
      )
      refl

pub param_get_string-quoted :
    (before : Bytes) (n : ℕ) (name value rest : Bytes) (size : ℕ)
    → Lacks n before
    → Lacks 61 (n ∷ name)
    → Lacks 34 value
    → param_get_string
        (n ∷ name)
        size
        (some (param_text before (n ∷ name) (34 ∷ (value ++ (34 ∷ rest)))))
      ≡ some (buffer_of size value)
unfolding param_get_string value_at
param_get_string-quoted before n name value rest size first plain quoteless =
    rw
      (
        value_start-param_text before n name (34 ∷ (value ++ (34 ∷ rest))) first plain,
        find_char_behind 34 value rest quoteless,
        take-append value (34 ∷ rest),
        value_at,
        param_get_string,
      )
      refl
