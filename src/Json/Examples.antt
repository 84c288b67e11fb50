-- ===== src/Json/Examples.antt =====
-- {b:1,bc:{c:42}}, and a value that is a quote alone
use extlib.Common.{◌≡◌, refl, [], ◌∷◌, arith, length}
use extlib.Text.{codes, starts}
use extlib.Json.{
  found, type_error, outside, get_int_at, span_digits, number_of, find_key, keys_of, skip_colon,
  walk_keys, json_walk, ends_value, span_value, unquote, get_string_at, json_get_int,
  json_get_string,
}
use extlib.Json.Number.{Level, IsPlain, json_get_int-object}

abbrev bc_level : Level
bc_level = record { before = codes "b:1,"; first = 98; others = codes "c" }

abbrev c_level : Level
c_level = record { before = []; first = 99; others = [] }

bc_level-IsPlain : IsPlain bc_level
unfolding starts
bc_level-IsPlain = record {
  no_open = (refl, (refl, (refl, (refl, tt))));
  no_close = (refl, (refl, (refl, (refl, tt))));
  no_key = (refl, (refl, (refl, (refl, tt))));
  first_plain = (refl, refl);
  no_slash = (refl, (refl, tt));
}

c_level-IsPlain : IsPlain c_level
c_level-IsPlain = record {
  no_open = tt;
  no_close = tt;
  no_key = tt;
  first_plain = (refl, refl);
  no_slash = (refl, tt);
}

json_get_int-object_example :
    json_get_int length (codes "{b:1,bc:{c:42}}") (codes "/bc/c") ≡ found 2
json_get_int-object_example =
    json_get_int-object length bc_level (c_level ∷ []) 52 (codes "2") (codes "}")
      (bc_level-IsPlain, (c_level-IsPlain, tt)) (refl, (refl, tt)) (omega arith)

-- The key that is looked for begins inside another.
part_of_a_key : json_get_int length (codes "{bar:1,a:23}") (codes "/a") ≡ type_error
unfolding json_get_int json_walk keys_of walk_keys find_key starts skip_colon get_int_at span_digits
    ends_value number_of
part_of_a_key = refl

string_found : json_get_string 8 (codes "{a:'bc'}") (codes "/a") ≡ found (codes "bc")
unfolding json_get_string json_walk keys_of walk_keys find_key starts skip_colon get_string_at
    span_value ends_value unquote
string_found = refl

-- The length of what is between wraps around, and the copy runs to the end of the buffer.
quote_alone : json_get_string 8 (codes "{a:'}") (codes "/a") ≡ outside
unfolding json_get_string json_walk keys_of walk_keys find_key starts skip_colon get_string_at
    span_value ends_value unquote
quote_alone = refl
