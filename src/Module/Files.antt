-- ===== src/Module/Files.antt =====
-- The files of the modules that are loaded by src/posix/module.c.
use mathlib.Core.Path.{subst}
use mathlib.Core.Option.{some-injective}
use extlib.Common.{
  ℕ, suc, ◌≡◌, refl, sym, ap, ◌∙◌, inl, inr, Bool, true, false, ◌||◌, Bool-cases, Option, none,
  some, List, [], ◌∷◌, ◌++◌, ◌==◌, if◌then◌else◌, take, arith, ok, Rc, success, failure, Bytes,
}
use extlib.Text.{same_text, same_text_refl}
use extlib.Module.{
  Module, Modules, Linker, ModError, fails, reload, init_error, sym_error, open_error, Entry,
  is_skipped, get_filename, find_module, remove_module, new_module, load_module, unload_module,
  load_entries, load_modules_from_dir,
}

pub has_file : Bytes → List Module → Bool
has_file file [] = false
has_file file (m ∷ ms) = same_text m.filename file || has_file file ms

-- No two modules are of one file.
abbrev pub DistinctFiles : List Module → Type 0
DistinctFiles [] = Unit
DistinctFiles (m ∷ ms) = (has_file m.filename ms ≡ false) × DistinctFiles ms

find_module-has_file :
    (ms : List Module) (file : Bytes) → find_module ms file ≡ none → has_file file ms ≡ false
unfolding find_module has_file
find_module-has_file [] file h = refl
find_module-has_file (m ∷ ms) file h =
    elim (Bool-cases (same_text m.name file || same_text m.filename file)) [
      | inl e ↦ ground (arith, h, e)
      | inr e ↦
          let rest =
            find_module-has_file ms file
              (ap (λ b. if b then some m else find_module ms file) (sym e) ∙ h) in
          ground (arith, e, rest)
    ]

remove_module-has_file :
    (address : ℕ) (ms : List Module) (file : Bytes)
    → has_file file ms ≡ false
    → has_file file (remove_module address ms) ≡ false
unfolding remove_module has_file
remove_module-has_file address [] file h = h
remove_module-has_file address (m ∷ ms) file h =
    ground (arith, h, remove_module-has_file address ms file)

remove_module-DistinctFiles :
    (address : ℕ) (ms : List Module) → DistinctFiles ms → DistinctFiles (remove_module address ms)
unfolding remove_module
remove_module-DistinctFiles address [] h = h
remove_module-DistinctFiles address (m ∷ ms) (out, h) = elim (Bool-cases (m.address == address)) [
  | inl e ↦ rw e h
  | inr e ↦
      rw e
        (remove_module-has_file address ms m.filename out, remove_module-DistinctFiles address ms h)
]

-- A call of `load_module` fails and leaves the modules, or puts one of the file in front.
pub data Loaded (filename : Bytes) (ms : Modules) : Option Module × Modules → Type 0 where
  refused :
      (e : ModError) (message : Bytes)
      → Loaded filename ms (none, record ms { err = e; errmsg = message })
  loaded :
      (m : Module)
      → m.filename ≡ filename
      → find_module ms.modules filename ≡ none
      → Loaded filename ms (some m, record ms { modules = m ∷ ms.modules })

load_module-Loaded :
    (sys : Linker) (address : ℕ) (filepath : Bytes) (param : Option Bytes) (ms : Modules)
    → Loaded (get_filename filepath) ms (load_module sys address filepath param ms)
unfolding load_module new_module
load_module-Loaded sys address filepath param ms =
    by_found (find_module ms.modules (get_filename filepath)) refl (sys.dlopen filepath) refl
  where
    by_found :
        (o : Option Module)
        → find_module ms.modules (get_filename filepath) ≡ o
        → (q : Option ℕ) → sys.dlopen filepath ≡ q
        → Loaded (get_filename filepath) ms (load_module sys address filepath param ms)
    by_found (some m) e q f = rw (e, load_module) (refused reload ms.errmsg)
    by_found none e none f = rw (e, f, load_module) (refused open_error _)
    by_found none e (some handle) f = by_init (sys.init_fn handle) refl
      where
        by_init :
            (o : Option (Module → Bool × Module))
            → sys.init_fn handle ≡ o
            → Loaded (get_filename filepath) ms (load_module sys address filepath param ms)
        by_init none g = rw (e, f, g, load_module) (refused sym_error _)
        by_init (some init) g =
            let made = init (new_module address filepath (get_filename filepath) param handle) in
            let kept = record (made.1) { address = address; filename = get_filename filepath } in
            elim (Bool-cases made.0) [
              | inl b ↦ rw (e, f, g, b, load_module, new_module) (refused init_error _)
              | inr b ↦ rw (e, f, g, b, load_module, new_module) (loaded kept refl e)
            ]

Loaded-DistinctFiles :
    (filename : Bytes) (ms : Modules) (r : Option Module × Modules)
    → Loaded filename ms r
    → DistinctFiles ms.modules
    → DistinctFiles (r.1).modules
Loaded-DistinctFiles filename ms r (refused e message) h = h
Loaded-DistinctFiles filename ms r (loaded m same new) h = (
  subst (λ f. has_file f ms.modules ≡ false) (sym same)
      (find_module-has_file ms.modules filename new),
  h,
)

load_module-DistinctFiles :
    (sys : Linker) (address : ℕ) (filepath : Bytes) (param : Option Bytes) (ms : Modules)
    → DistinctFiles ms.modules
    → DistinctFiles (load_module sys address filepath param ms).1.modules
load_module-DistinctFiles sys address filepath param ms =
    Loaded-DistinctFiles (get_filename filepath) ms (load_module sys address filepath param ms)
      (load_module-Loaded sys address filepath param ms)

load_entries-DistinctFiles :
    (sys : Linker) (dirname : Bytes) (es : List Entry) (address : ℕ) (rc : Rc) (ms : Modules)
    → DistinctFiles ms.modules
    → DistinctFiles (load_entries sys dirname es address rc ms).1.modules
unfolding load_entries
load_entries-DistinctFiles sys dirname [] address rc ms h = h
load_entries-DistinctFiles sys dirname (e ∷ es) address rc ms h =
    let path = take 511 (dirname ++ (47 ∷ e.0)) in
    let r = load_module sys address path none ms in
    let k = load_module-DistinctFiles sys address path none ms h in
    by_tests r (is_skipped e) (find_module ms.modules e.0)
      (load_entries-DistinctFiles sys dirname es address rc ms h)
      (load_entries-DistinctFiles sys dirname es (suc address) rc (r.1) k)
      (load_entries-DistinctFiles sys dirname es (suc address) failure (r.1) k)
  where
    by_tests :
        (r : Option Module × Modules) (b : Bool) (o : Option Module)
        → DistinctFiles (load_entries sys dirname es address rc ms).1.modules
        → DistinctFiles (load_entries sys dirname es (suc address) rc (r.1)).1.modules
        → DistinctFiles (load_entries sys dirname es (suc address) failure (r.1)).1.modules
        → DistinctFiles
            (if b then load_entries sys dirname es address rc ms else elim o [
              | some m ↦ load_entries sys dirname es address rc ms
              | none ↦ elim r.0 [
                | none ↦ load_entries sys dirname es (suc address) failure (r.1)
                | some m ↦ load_entries sys dirname es (suc address) rc (r.1)
              ]
            ]).1.modules
    by_tests r true o skipped good bad = skipped
    by_tests r false (some m) skipped good bad = skipped
    by_tests (none, left) false none skipped good bad = bad
    by_tests (some m, left) false none skipped good bad = good

-- Loading the modules of a directory, some of which may fail, never loads a file twice.
pub load_modules_from_dir-DistinctFiles :
    (sys : Linker) (entries : Option (List Entry)) (dirname : Bytes) (address : ℕ) (ms : Modules)
    → DistinctFiles ms.modules
    → DistinctFiles (load_modules_from_dir sys entries dirname address ms).1.modules
unfolding load_modules_from_dir
load_modules_from_dir-DistinctFiles sys none dirname address ms h = h
load_modules_from_dir-DistinctFiles sys (some es) dirname address ms h =
    load_entries-DistinctFiles sys dirname es address success ms h

Loaded-some :
    (file : Bytes) (ms : Modules) (m : Module) (after : Modules) (r : Option Module × Modules)
    → Loaded file ms r
    → r ≡ (some m, after)
    → (m.filename ≡ file) × (after.modules ≡ m ∷ ms.modules)
Loaded-some file ms m after r (refused e message) h =
    let bad : none ≡ some m = ap (λ (r : Option Module × Modules). r.0) h in cc
Loaded-some file ms m after r (loaded n same new) h =
    let n_is_m : n ≡ m = some-injective n m (ap (λ (r : Option Module × Modules). r.0) h) in
    (
      ap (λ (m : Module). m.filename) (sym n_is_m) ∙ same,
      ap (λ (r : Option Module × Modules). r.1.modules) (sym h) ∙ ap (λ m. m ∷ ms.modules) n_is_m,
    )

find_module_first :
    (m : Module) (ms : List Module) (file : Bytes)
    → m.filename ≡ file
    → find_module (m ∷ ms) file ≡ some m
unfolding find_module
find_module_first m ms file h =
    let here : same_text m.filename file ≡ true =
      ap (λ f. same_text m.filename f) (sym h) ∙ same_text_refl m.filename in
    ground (arith, here)

remove_module_first : (m : Module) (ms : List Module) → remove_module m.address (m ∷ ms) ≡ ms
unfolding remove_module
remove_module_first m ms = ground arith

-- A module that was loaded is found by its file, a second one of that file is refused, whatever its
-- path, and unloading it leaves the modules that there were before.
pub unload_module-load_module :
    (sys : Linker) (address other : ℕ) (filepath again : Bytes) (param param' : Option Bytes)
    (ms after : Modules) (m : Module)
    → load_module sys address filepath param ms ≡ (some m, after)
    → get_filename again ≡ get_filename filepath
    → sys.dlclose m.handle ≡ true
    → (find_module after.modules (get_filename filepath) ≡ some m)
      × (load_module sys other again param' after ≡ (none, record after { err = reload }))
      × (left : Modules) × (unload_module sys m after ≡ ok (success, left))
      × (left.modules ≡ ms.modules)
unfolding load_module unload_module
unload_module-load_module sys address other filepath again param param' ms after m h same closes =
    let file = get_filename filepath in
    let (named, added) =
      Loaded-some file ms m after (load_module sys address filepath param ms)
        (load_module-Loaded sys address filepath param ms) h in
    let found : find_module after.modules file ≡ some m =
      ap (λ ms. find_module ms file) added ∙ find_module_first m ms.modules file named in
    let again_found : find_module after.modules (get_filename again) ≡ some m =
      ap (λ f. find_module after.modules f) same ∙ found in
    (
      found,
      rw (again_found, load_module) refl,
      record (if sys.has_exit m.handle then after else fails sym_error sys.dlerror after) {
        modules = remove_module m.address after.modules;
      },
      rw (closes, unload_module) refl,
      ap (λ ms. remove_module m.address ms) added ∙ remove_module_first m ms.modules,
    )
