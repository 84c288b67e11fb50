-- ===== src/Module/Examples.antt =====
-- Two modules, and their parameters.
use extlib.Common.{◌≡◌, refl, true, false, none, some, [], ◌∷◌, ok, success}
use extlib.Text.{codes, same_text}
use extlib.Module.{
  Module, Modules, Linker, reload, open_error, get_filename, find_module, new_module, load_module,
  unload_module, load_modules_from_dir, mod_error,
}
use extlib.Module.Files.{
  DistinctFiles, load_modules_from_dir-DistinctFiles, unload_module-load_module,
}
use extlib.Module.Param.{param_get_string, buffer_of, param_text, param_get_string-plain}

-- a linker that opens everything, and functions that do nothing
abbrev linker : Linker
linker = record {
  dlopen = λ path. some 1;
  init_fn = λ handle. some (λ m. (false, m));
  has_exit = λ handle. true;
  dlclose = λ handle. true;
  dlerror = codes "cannot open";
  strerror = codes "no such directory";
}

abbrev no_modules : Modules
no_modules = record { modules = []; err = open_error; errmsg = [] }

load_modules_from_dir-DistinctFiles_example :
    DistinctFiles
      (load_modules_from_dir linker
        (some ((codes "a.so", true) ∷ (codes "a.so", true) ∷ []))
        (codes "lib")
        1
        no_modules).1.modules
load_modules_from_dir-DistinctFiles_example =
    load_modules_from_dir-DistinctFiles linker
      (some ((codes "a.so", true) ∷ (codes "a.so", true) ∷ [])) (codes "lib") 1 no_modules tt

abbrev a_so : Module
a_so = new_module 1 (codes "lib/a.so") (codes "a.so") none 1

unload_module-load_module_example :
    (find_module (a_so ∷ []) (get_filename (codes "lib/a.so")) ≡ some a_so)
    × (load_module linker 2 (codes "old/a.so") none (record no_modules { modules = a_so ∷ [] })
        ≡ (none, record { modules = a_so ∷ []; err = reload; errmsg = [] }))
    × (left : Modules) × (unload_module linker a_so (record no_modules { modules = a_so ∷ [] })
        ≡ ok (success, left))
    × (left.modules ≡ [])
unfolding load_module find_module get_filename same_text
unload_module-load_module_example =
    unload_module-load_module linker 1 2 (codes "lib/a.so") (codes "old/a.so") none none no_modules
      (record no_modules { modules = a_so ∷ [] }) a_so refl refl refl

-- a directory that cannot be read
no_directory :
    mod_error (load_modules_from_dir linker none (codes "lib") 1 no_modules).1
    ≡ codes "no such directory"
unfolding load_modules_from_dir mod_error
no_directory = refl

rate_in_baudrate :
    param_get_string
      (codes "rate")
      4
      (some (param_text (codes "baud") (codes "rate") (codes "9600 bits=7")))
    ≡ some (buffer_of 4 (codes "9600"))
rate_in_baudrate =
    param_get_string-plain (codes "baud") 114 (codes "ate") 57 (codes "600") (codes "bits=7") 4
      (refl, (refl, (refl, (refl, tt)))) (refl, (refl, (refl, (refl, tt))))
      (refl, (refl, (refl, (refl, tt)))) refl
