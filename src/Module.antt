-- ===== src/Module.antt =====
-- src/posix/module.c: the table of loaded modules. The answers of the dynamic linker, and what a
-- module's functions do, are arguments; a module is known by its address.
pub mod Files
pub mod Param
pub mod Listed
mod Examples
use extlib.Common.{
  ℕ, zero, suc, ◌+◌, ◌-◌, Bool, true, false, not, ◌&&◌, ◌||◌, Option, none, some, List, [], ◌∷◌,
  ◌++◌, ◌==◌, ltb, if◌then◌else◌, take, overwrite, length, Outcome, ok, abort, fault, ◌>>=◌, ◌>>◌,
  assert, Rc, success, failure, Bytes, ◌≡◌,
}
use extlib.Text.{codes, same_text}

-- `enum MODULE_ERROR`
pub data ModError : Type 0 where
  reload open_error sym_error init_error exit_error : ModError

-- `struct module`, without the function that is called once
pub record Module : Type 0 where
  pub address : ℕ
  pub filepath : Bytes
  pub filename : Bytes
  pub name : Bytes
  pub param : Option Bytes
  pub alias : Option Bytes
  pub desc : Option Bytes
  pub version : ℕ
  pub handle : ℕ

-- `modules`, newest first, `_err` and `_errmsg`
pub record Modules : Type 0 where
  pub modules : List Module
  pub err : ModError
  pub errmsg : Bytes

-- `MODULE_ERRMSG_SIZE`
abbrev errmsg_size : ℕ
errmsg_size = 512

-- an error with a message, cut to what its field has room for
abbrev pub fails : ModError → Bytes → Modules → Modules
fails e message ms = record ms { err = e; errmsg = take (errmsg_size - 1) message }

pub mod_errno : Modules → ModError
mod_errno ms = ms.err

pub mod_error : Modules → Bytes
mod_error ms = ms.errmsg

-- What the linker says: the handle of a file, the function of a handle that `dlsym` finds, which gets
-- the module and returns whether it failed and what it has made of it, and whether `dlclose` succeeds;
-- `dlerror` and `strerror` are the texts of its errors.
pub record Linker : Type 0 where
  pub dlopen : Bytes → Option ℕ
  pub init_fn : ℕ → Option (Module → Bool × Module)
  pub has_exit : ℕ → Bool
  pub dlclose : ℕ → Bool
  pub dlerror : Bytes
  pub strerror : Bytes

-- what stands behind the last '/', if there is one
after_slash : Bytes → Option Bytes
after_slash [] = none
after_slash (c ∷ s) =
    let rest = after_slash s in
    elim rest [ some t ↦ some t | none ↦ if c == 47 then some s else none ]

pub get_filename : Bytes → Bytes
unfolding after_slash
get_filename filepath = elim (after_slash filepath) [ none ↦ filepath | some start ↦ start ]

pub find_module : List Module → Bytes → Option Module
find_module [] name = none
find_module (m ∷ ms) name =
    if same_text m.name name || same_text m.filename name then some m else find_module ms name

pub remove_module : ℕ → List Module → List Module
remove_module address [] = []
remove_module address (m ∷ ms) =
    let rest = remove_module address ms in if m.address == address then ms else m ∷ rest

pub new_module : ℕ → Bytes → Bytes → Option Bytes → ℕ → Module
new_module address filepath filename param handle = record {
  address = address;
  filepath = filepath;
  filename = filename;
  name = filename;
  param = param;
  alias = none;
  desc = none;
  version = 0;
  handle = handle;
}

abbrev init_message : Bytes → Bytes
init_message filepath = codes "module_init of " ++ (filepath ++ codes " failed!\n")

-- `load_module`; `address` is that of the new module. Its function may rename it, but not change its
-- file or its address.
pub load_module : Linker → ℕ → Bytes → Option Bytes → Modules → Option Module × Modules
unfolding new_module
load_module sys address filepath param ms =
    let filename = get_filename filepath in
    elim (find_module ms.modules filename) [
      | some m ↦ (none, record ms { err = reload })
      | none ↦ elim (sys.dlopen filepath) [
        | none ↦ (none, fails open_error sys.dlerror ms)
        | some handle ↦ elim (sys.init_fn handle) [
          | none ↦ (none, fails sym_error sys.dlerror ms)
          | some init ↦
              let (failed, made) = init (new_module address filepath filename param handle) in
              if failed then (none, fails init_error (init_message filepath) ms) else (
                some (record made { address = address; filename = filename }),
                record ms {
                  modules = record made { address = address; filename = filename } ∷ ms.modules;
                },
              )
        ]
      ]
    ]

pub unload_module : Linker → Module → Modules → Outcome (Rc × Modules)
unload_module sys m ms = do
  assert (sys.dlclose m.handle)
  let left = if sys.has_exit m.handle then ms else fails sym_error sys.dlerror ms
  ok (success, record left { modules = remove_module m.address ms.modules })

-- what `readdir` gives: the name, and whether it is a regular file or a link
abbrev pub Entry : Type 0
Entry = Bytes × Bool

abbrev pub is_skipped : Entry → Bool
is_skipped (name, is_file) =
    same_text (codes ".") name || (same_text (codes "..") name || not is_file)

-- The loop of `load_modules_from_dir`; the path has room for 511 bytes. Each module gets the next of
-- the addresses.
pub load_entries : Linker → Bytes → List Entry → ℕ → Rc → Modules → Rc × Modules
load_entries sys dirname [] address rc ms = (rc, ms)
load_entries sys dirname (e ∷ es) address rc ms =
    let path = take 511 (dirname ++ (47 ∷ e.0)) in
    let (loaded, ms') = load_module sys address path none ms in
    let skipped = load_entries sys dirname es address rc ms in
    let good = load_entries sys dirname es (suc address) rc ms' in
    let bad = load_entries sys dirname es (suc address) failure ms' in
    if is_skipped e then skipped else elim (find_module ms.modules e.0) [
      | some m ↦ skipped
      | none ↦ elim loaded [ none ↦ bad | some m ↦ good ]
    ]

-- `opendir` gives the entries, or nothing.
pub load_modules_from_dir : Linker → Option (List Entry) → Bytes → ℕ → Modules → Rc × Modules
load_modules_from_dir sys none dirname address ms = (failure, fails open_error sys.strerror ms)
load_modules_from_dir sys (some es) dirname address ms =
    load_entries sys dirname es address success ms

-- The loop of `unload_all_modules` over the modules that there were.
unload_each : Linker → List Module → Modules → Outcome (Rc × Modules)
unload_each sys [] ms = ok (success, ms)
unload_each sys (m ∷ rest) ms = do (rc, ms') ← unload_module sys m ms; unload_each sys rest ms'

pub unload_all_modules : Linker → Modules → Outcome (Rc × Modules)
unfolding unload_each
unload_all_modules sys ms = unload_each sys ms.modules ms

abbrev pub get_modules_count : Modules → ℕ
get_modules_count ms = length ms.modules

-- `get_modules`, into an array of the caller
pub get_modules : Modules → List Module → Outcome (List Module)
get_modules ms buf =
    if ltb (length buf) (length ms.modules) then fault else ok (overwrite buf 0 ms.modules)

pub module_set_name : Bytes → Module → Module
module_set_name name m = record m { name = name }

pub module_set_info : Option Bytes → Option Bytes → Module → Module
module_set_info alias desc m = record m { alias = alias; desc = desc }

pub module_set_version : ℕ → Module → Module
module_set_version version m = record m { version = version }

pub module_get_param : Module → Option Bytes
module_get_param m = m.param
