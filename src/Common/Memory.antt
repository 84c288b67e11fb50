-- ===== src/Common/Memory.antt =====
-- What a C function does when it does not simply return, `size_t` arithmetic, and the copies of
-- <string.h> with their bounds. `abort` is a failed `assert`, `fault` an access outside an object.
use Prim.Native.Nat.{ℕ, ◌+◌, ◌-◌, ◌*◌, ◌%◌, ◌^◌, ◌≤◌, ◌<◌}
use mathlib.Core.Path.{◌≡◌, refl}
use mathlib.Core.Bool.{Bool, true, false}
use mathlib.Core.List.{List}
use native.Mathlib.Omega.{arith}
use mathlib.Core.Logic.{◌⊎◌, inl, inr}
use extlib.Common.Tests.{leb, if◌then◌else◌, Bool-cases}
use extlib.Common.Lists.{length, take, drop, overwrite, length-take, length-drop}

pub data Outcome (A : Type 0) : Type 0 where
  ok : A → Outcome A
  abort : Outcome A
  fault : Outcome A

infixl 5 ◌>>=◌ ◌>>◌
abbrev pub ◌>>=◌ : {A B : Type 0} → Outcome A → (A → Outcome B) → Outcome B
ok a >>= f = f a
abort >>= f = abort
fault >>= f = fault

abbrev pub ◌>>◌ : {B : Type 0} → Outcome (Unit {0}) → Outcome B → Outcome B
m >> k = m >>= λ _. k

-- `assert(b)`
abbrev pub assert : Bool → Outcome (Unit {0})
assert true = ok tt
assert false = abort

-- The call returns, and what it returns satisfies `P`.
abbrev pub Returns : {A : Type 0} → (A → Type 0) → Outcome A → Type 0
Returns P (ok a) = P a
Returns P abort = ⊥
Returns P fault = ⊥

-- the `int` results 0 and -1
pub data Rc : Type 0 where
  success failure : Rc

-- Bytes are only moved and compared, so a byte is a number; a buffer is a list of them.
abbrev pub Bytes : Type 0
Bytes = List ℕ

abbrev pub size_mod : ℕ
size_mod = 2 ^ 64

-- `size_t` addition, subtraction, and `<< 1`, which wrap around
abbrev pub add_size : ℕ → ℕ → ℕ
add_size a b = (a + b) % size_mod

abbrev pub sub_size : ℕ → ℕ → ℕ
sub_size a b = (a + size_mod - b) % size_mod

abbrev pub double_size : ℕ → ℕ
double_size a = a * 2 % size_mod

-- A `size_t` that is stored in an `int` and used as a `size_t` again: cut to 32 bits, sign extended.
abbrev pub through_int : ℕ → ℕ
through_int n = if leb (2 ^ 31) (n % 2 ^ 32) then n % 2 ^ 32 + (size_mod - 2 ^ 32) else n % 2 ^ 32

-- The `n` bytes of `buf` from `pos` on: the source of a copy.
pub load : Bytes → ℕ → ℕ → Outcome Bytes
load buf pos n = if leb (pos + n) (length buf) then ok (take n (drop pos buf)) else fault

-- `buf` with `src` written from `pos` on: the target of a copy.
pub store : Bytes → ℕ → Bytes → Outcome Bytes
store buf pos src =
    if leb (pos + length src) (length buf) then ok (overwrite buf pos src) else fault

-- `memcpy(dst + p, src + q, n)`, also `memmove`: the bytes are read before any is written.
unfoldable pub copy : Bytes → ℕ → Bytes → ℕ → ℕ → Outcome Bytes
unfolding load store
copy dst p src q n = do bytes ← load src q n; store dst p bytes

-- A copy inside both objects writes exactly the bytes that it read.
pub copy-ok :
    (dst : Bytes) (p : ℕ) (src : Bytes) (q n : ℕ)
    → p + n ≤ length dst
    → q + n ≤ length src
    → copy dst p src q n ≡ ok (overwrite dst p (take n (drop q src)))
unfolding copy
copy-ok dst p src q n h k = ground (arith, length-take n (drop q src), length-drop q src)

-- A copy that reads outside its source is a fault, whatever the target.
pub copy-source_fault :
    (dst : Bytes) (p : ℕ) (src : Bytes) (q n : ℕ) → length src < q + n → copy dst p src q n ≡ fault
unfolding copy
copy-source_fault dst p src q n h = ground arith

pub Returns-mono :
    {A : Type 0} {P Q : A → Type 0} (r : Outcome A)
    → Returns P r
    → ((a : A) → P a → Q a)
    → Returns Q r
Returns-mono (ok a) p weaken = weaken a p
Returns-mono abort p weaken = absurd p
Returns-mono fault p weaken = absurd p

-- A copy faults or returns the new bytes of its target.
pub copy-cases :
    (dst : Bytes) (p : ℕ) (src : Bytes) (q n : ℕ)
    → (copy dst p src q n ≡ fault) ⊎ ((new : Bytes) × (copy dst p src q n ≡ ok new))
unfolding copy
copy-cases dst p src q n = elim (Bool-cases (leb (q + n) (length src))) [
  | inr out ↦ inl (ground arith)
  | inl inside ↦
      let bytes = take n (drop q src) in
      elim (Bool-cases (leb (p + length bytes) (length dst))) [
        | inr out ↦ inl (ground arith)
        | inl fits ↦ inr (overwrite dst p bytes, ground arith)
      ]
]

-- what a call returns that returns
pub Returns-ok :
    {A : Type 0} (P : A → Type 0) (r : Outcome A) → Returns P r → (a : A) × (r ≡ ok a) × P a
Returns-ok P (ok a) p = (a, refl, p)
Returns-ok P abort p = absurd p
Returns-ok P fault p = absurd p
