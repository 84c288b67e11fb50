-- ===== src/Json/Number.antt =====
-- The number at a path of keys that src/json.c finds in objects one in the other.
use extlib.Common.{
  ℕ, ◌≤◌, ◌<◌, ◌≡◌, refl, sym, ap, ◌∙◌, true, false, some, List, [], ◌∷◌, ◌++◌, ◌==◌, ltb, length,
  length-append, append_assoc, drop-append, All, arith, Bytes,
}
use extlib.Text.{starts, is_digit}
use extlib.Text.Search.{Lacks}
use extlib.Json.{
  found, keys_of, find_key, skip_colon, walk_keys, json_walk, span_digits, ends_value, number_of,
  get_int_at, json_get_int,
}

-- an object with a key behind other text, and in it the next
pub record Level : Type 0 where
  pub before : Bytes
  pub first : ℕ
  pub others : Bytes

abbrev pub key_of : Level → Bytes
key_of l = l.first ∷ l.others

abbrev pub object : List Level → Bytes → Bytes
object [] value = value
object (l ∷ ls) value = 123 ∷ (l.before ++ (key_of l ++ (58 ∷ object ls value)))

abbrev pub path_of : List Level → Bytes
path_of [] = []
path_of (l ∷ ls) = 47 ∷ (key_of l ++ path_of ls)

-- The key begins at no place of what stands before it.
abbrev pub Nowhere : Bytes → Bytes → Type 0
Nowhere key [] = Unit
Nowhere key (x ∷ before) = (starts key (x ∷ (before ++ key)) ≡ false) × Nowhere key before

-- What stands before the key has no brace, and the key begins nowhere in it; the key does not begin
-- with a brace, and has no '/'.
pub record IsPlain (l : Level) : Type 0 where
  pub no_open : Lacks 123 l.before
  pub no_close : Lacks 125 l.before
  pub no_key : Nowhere (key_of l) l.before
  pub first_plain : ((l.first == 123) ≡ false) × ((l.first == 125) ≡ false)
  pub no_slash : Lacks 47 (key_of l)

starts-append : (xs ys : Bytes) → starts xs (xs ++ ys) ≡ true
unfolding starts
starts-append [] ys = refl
starts-append (x ∷ xs) ys = ground (arith, starts-append xs ys)

find_key_here :
    (k : ℕ) (key rest : Bytes)
    → (k == 123) ≡ false
    → (k == 125) ≡ false
    → find_key (k ∷ key) 1 0 (k ∷ (key ++ rest)) ≡ some rest
unfolding find_key
find_key_here k key rest o c =
    rw (o, c, starts-append (k ∷ key) rest) (ap some (drop-append key rest))

starts-longer : (xs ys zs : Bytes) → length xs ≤ length ys → starts xs (ys ++ zs) ≡ starts xs ys
unfolding starts
starts-longer [] ys zs h = refl
starts-longer (x ∷ xs) [] zs h = absurd (omega arith)
starts-longer (x ∷ xs) (y ∷ ys) zs h = rw (starts-longer xs ys zs (omega arith)) refl

-- A key that does not begin in front of itself does not do so where more follows.
starts-behind :
    (key : Bytes) (x : ℕ) (before rest : Bytes)
    → starts key (x ∷ (before ++ key)) ≡ false
    → starts key (x ∷ (before ++ (key ++ rest))) ≡ false
starts-behind key x before rest h =
    ap (λ t. starts key (x ∷ t)) (sym (append_assoc before key rest))
    ∙ starts-longer key (x ∷ (before ++ key)) rest (omega (arith, length-append before key))
    ∙ h

find_key_behind :
    (k : ℕ) (key before rest : Bytes)
    → Lacks 123 before
    → Lacks 125 before
    → Nowhere (k ∷ key) before
    → (k == 123) ≡ false
    → (k == 125) ≡ false
    → find_key (k ∷ key) 1 0 (before ++ (k ∷ (key ++ rest))) ≡ some rest
unfolding find_key
find_key_behind k key [] rest o c f p q = find_key_here k key rest p q
find_key_behind k key (x ∷ before) rest (o, os) (c, cs) (f, fs) p q =
    let here = find_key_behind k key before rest os cs fs p q in
    let not_yet = starts-behind (k ∷ key) x before rest f in ground (arith, o, c, not_yet, here)

find_key-object :
    (l : Level) (rest : Bytes)
    → IsPlain l
    → find_key (key_of l) 0 0 (123 ∷ (l.before ++ (key_of l ++ rest))) ≡ some rest
unfolding find_key
find_key-object l rest p =
    find_key_behind l.first l.others l.before rest p.no_open p.no_close p.no_key p.first_plain.0
      p.first_plain.1

abbrev keys : List Level → List Bytes
keys [] = []
keys (l ∷ ls) = key_of l ∷ keys ls

walk_keys-object :
    (l : Level) (ls : List Level) (value : Bytes)
    → All IsPlain (l ∷ ls)
    → walk_keys (keys (l ∷ ls)) (object (l ∷ ls) value) ≡ found (58 ∷ value)
unfolding walk_keys skip_colon
walk_keys-object l [] value (p, ps) = rw (find_key-object l (58 ∷ value) p, walk_keys) refl
walk_keys-object l (m ∷ ls) value (p, ps) =
    rw (find_key-object l (58 ∷ object (m ∷ ls) value) p, walk_keys)
      (walk_keys-object m ls value ps)

keys_of-path :
    (key : Bytes) (ls : List Level)
    → Lacks 47 key
    → All IsPlain ls
    → keys_of (key ++ path_of ls) ≡ key ∷ keys ls
unfolding keys_of
keys_of-path [] [] h p = refl
keys_of-path [] (l ∷ ls) h (p, ps) = rw (keys_of-path (key_of l) ls p.no_slash ps, keys_of) refl
keys_of-path (c ∷ key) ls (k, h) p = rw (keys_of-path key ls h p, keys_of) (ground (arith, k))

json_walk-object :
    (l : Level) (ls : List Level) (value : Bytes)
    → All IsPlain (l ∷ ls)
    → json_walk (object (l ∷ ls) value) (path_of (l ∷ ls)) ≡ found (58 ∷ value)
unfolding json_walk
json_walk-object l ls value (p, ps) =
    rw (keys_of-path (key_of l) ls p.no_slash ps, json_walk) (walk_keys-object l ls value (p, ps))

abbrev pub AreDigits : Bytes → Type 0
AreDigits ds = All (λ d. is_digit d ≡ true) ds

span_digits-append :
    (ds rest : Bytes) → AreDigits ds → span_digits (ds ++ (125 ∷ rest)) ≡ (ds, 125 ∷ rest)
unfolding span_digits
span_digits-append [] rest h = refl
span_digits-append (d ∷ ds) rest (p, h) = rw (span_digits-append ds rest h, p, span_digits) refl

digit_starts : (d : ℕ) (s : Bytes) → is_digit d ≡ true → skip_colon (d ∷ s) ≡ d ∷ s
unfolding skip_colon
digit_starts d s h = ground (arith, h)

get_int_at-digits :
    {Int : Type 0} (atoi : Bytes → Int) (d : ℕ) (ds rest : Bytes)
    → AreDigits (d ∷ ds)
    → length (d ∷ ds) < 32
    → get_int_at atoi (58 ∷ (d ∷ (ds ++ (125 ∷ rest)))) ≡ found (atoi (d ∷ ds))
unfolding get_int_at skip_colon ends_value number_of
get_int_at-digits atoi d ds rest (p, h) short =
    let small : ltb (length (d ∷ ds)) 32 ≡ true = ground arith in
    let taken = span_digits-append (d ∷ ds) rest (p, h) in
    let last : number_of atoi (ends_value (d ∷ ds) (125 ∷ rest)) ≡ found (atoi (d ∷ ds)) =
      rw (small, number_of) refl in
    rw (digit_starts d (ds ++ (125 ∷ rest)) p, p, get_int_at)
      (ap (λ (s : Bytes × Bytes). number_of atoi (ends_value s.0 s.1)) taken ∙ last)

-- In objects one in the other, each with a key behind text that has no brace and nowhere begins the
-- key, keys without '/' that do not begin with a brace, `json_get_int` at the path of the keys
-- finds the number behind the last key, of fewer than 32 digits and before a closing brace.
pub json_get_int-object :
    {Int : Type 0} (atoi : Bytes → Int) (l : Level) (ls : List Level) (d : ℕ) (ds rest : Bytes)
    → All IsPlain (l ∷ ls)
    → AreDigits (d ∷ ds)
    → length (d ∷ ds) < 32
    → json_get_int atoi (object (l ∷ ls) ((d ∷ ds) ++ (125 ∷ rest))) (path_of (l ∷ ls))
      ≡ found (atoi (d ∷ ds))
unfolding json_get_int
json_get_int-object atoi l ls d ds rest plain digits short =
    rw (json_walk-object l ls ((d ∷ ds) ++ (125 ∷ rest)) plain, json_get_int)
      (get_int_at-digits atoi d ds rest digits short)
