-- ===== src/Opt/Examples.antt =====
-- A table of three options.
use extlib.Common.{ℕ, ◌+◌, ◌≡◌, refl, false, length, some, List, [], ◌∷◌, Bytes}
use extlib.Text.{codes, starts}
use extlib.Srrp.Next.{find_char}
use extlib.Opt.{
  Opt, string_static, boolean, miss_arg, init_from_args, find_by, set_by, opt_init_from_file,
}
use extlib.Opt.Kinds.{kinds, opt_init_from_file-kinds}

abbrev table : List (Opt ℕ)
table =
    record {
      optshort = codes "-a:";
      key = codes "address";
      value = string_static (codes "here");
      desc = codes "where";
    }
    ∷ record {
      optshort = codes "-v";
      key = codes "verbose";
      value = boolean false;
      desc = codes "more";
    }
    ∷ []

abbrev digit : ℕ → Bytes
digit n = (48 + n) ∷ []

abbrev address_last : List Bytes
address_last = codes "-v" ∷ codes "-a" ∷ []

-- an argument is missing, but what stands before is set
address_missing : (init_from_args length digit 0 address_last table).0 ≡ miss_arg
unfolding init_from_args starts find_by set_by find_char
address_missing = refl

opt_init_from_file-kinds_example :
    kinds
      (opt_init_from_file length
        (some (codes "verbose: on" ∷ []))
        (init_from_args length digit 0 address_last table).1).1
    ≡ kinds table
opt_init_from_file-kinds_example =
    opt_init_from_file-kinds length digit address_last (codes "verbose: on" ∷ []) table
