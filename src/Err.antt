-- ===== src/Err.antt =====
-- src/err.c: the messages of errors, in a hash table of lists. An errno is its 32 bits, and `print`
-- the text that `%d` gives for it.
pub mod Table
mod Examples
use Prim.Native.Nat.{bit_xor}
use extlib.Common.{
  ℕ, zero, suc, ◌+◌, ◌*◌, ◌%◌, Bool, true, false, Option, none, some, List, [], ◌∷◌, ◌==◌,
  if◌then◌else◌, Rc, success, failure, Bytes,
}
use extlib.Text.{codes}

-- `struct errx`, without its nodes
pub record Errx : Type 0 where
  pub errno : ℕ
  pub errmsg : Bytes

-- `NR_SERVICE`
abbrev pub nr_service : ℕ
nr_service = 919

-- the bytes of the tag, the lowest first
record Tag : Type 0 where
  b0 : ℕ
  b1 : ℕ
  b2 : ℕ
  b3 : ℕ

xor_byte : ℕ → ℕ → Tag → Tag
xor_byte i x t =
    if i == 0
    then record t { b0 = bit_xor t.b0 x }
    else if i == 1
    then record t { b1 = bit_xor t.b1 x }
    else if i == 2
    then record t { b2 = bit_xor t.b2 x }
    else record t { b3 = bit_xor t.b3 x }

mix : ℕ → Bytes → Tag → Tag
unfolding xor_byte
mix i [] t = t
mix i (x ∷ xs) t = mix (suc i) xs (xor_byte (i % 4) x t)

pub calc_tag : Bytes → ℕ
unfolding mix
calc_tag buf =
    let t = mix 0 buf (record { b0 = 255; b1 = 255; b2 = 255; b3 = 255 }) in
    t.b0 + 256 * (t.b1 + 256 * (t.b2 + 256 * t.b3))

-- `err_hlist`, by the index of the list, and `err_list`
pub record ErrTable : Type 0 where
  pub err_hlist : ℕ → List Errx
  pub err_list : List Errx

abbrev pub empty_table : ErrTable
empty_table = record { err_hlist = λ i. []; err_list = [] }

pub find_in : List Errx → ℕ → Option Errx
find_in [] errno = none
find_in (x ∷ xs) errno = if x.errno == errno then some x else find_in xs errno

module _ (print : ℕ → Bytes) where
  -- `tag_hash_fn` of the tag of the printed errno
  pub bucket : ℕ → ℕ
  bucket errno = calc_tag (print errno) % nr_service

  pub find_errx : ErrTable → ℕ → Option Errx
  find_errx t errno = find_in (t.err_hlist (bucket errno)) errno

  pub errx_register : ℕ → Bytes → ErrTable → Rc × ErrTable
  errx_register errno errmsg t = elim (find_errx t errno) [
    | some err ↦ (failure, t)
    | none ↦
        let err : Errx = record { errno = errno; errmsg = errmsg } in
        let i = bucket errno in
        (
          success,
          record {
            err_hlist = λ j. if j == i then err ∷ t.err_hlist j else t.err_hlist j;
            err_list = err ∷ t.err_list;
          },
        )
  ]

  pub errx_strerr : ErrTable → ℕ → Bytes
  errx_strerr t errno = elim (find_errx t errno) [
    | some err ↦ err.errmsg
    | none ↦ codes "Unknown errno"
  ]

-- `ERRX_ERRNO_MAP`
abbrev pub errno_map : List (ℕ × Bytes)
errno_map =
    (0, codes "OK")
    ∷ (1, codes "no permission")
    ∷ (2, codes "invalid argument")
    ∷ (3, codes "operation failed")
    ∷ (4, codes "operation timeout")
    ∷ (5, codes "object exist")
    ∷ (6, codes "object is busy")
    ∷ []

module _ (print : ℕ → Bytes) where
  -- one call of `errx_register` for each, with what it returns
  pub register_all : List (ℕ × Bytes) → ErrTable → List Rc × ErrTable
  register_all [] t = ([], t)
  register_all ((errno, errmsg) ∷ es) t =
      let (rc, u) = errx_register print errno errmsg t in
      let (rcs, v) = register_all es u in (rc ∷ rcs, v)

  pub errx_init : ErrTable
  errx_init = (register_all errno_map empty_table).1
