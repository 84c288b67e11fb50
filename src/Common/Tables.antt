-- ===== src/Common/Tables.antt =====
-- Parts and sums of tables `f 0, …, f (n - 1)`.
use Prim.Native.Nat.{ℕ, ◌+◌, ◌-◌, ◌<◌, min}
use mathlib.Core.Path.{◌≡◌, sym}
use mathlib.Core.List.{List, ◌++◌}
use native.Mathlib.Omega.{arith}
use extlib.Common.Lists.{
  length, get_or, take, drop, tabulate, length-take, length-drop, length-append, length-tabulate,
  get_or-take, get_or-drop, get_or-append, get_or-tabulate, eq-tabulate,
}

module _ {A : Type 0} (d : A) where
  pub drop-tabulate :
      (k n : ℕ) (f : ℕ → A) → drop k (tabulate n f) ≡ tabulate (n - k) (λ i. f (k + i))
  drop-tabulate k n f =
      eq-tabulate d _ _ _ (omega (arith, length-drop k (tabulate n f), length-tabulate n f))
        λ i h. ground (arith, get_or-drop d k (tabulate n f) i, get_or-tabulate d n f (k + i))

  pub take-tabulate : (k n : ℕ) (f : ℕ → A) → take k (tabulate n f) ≡ tabulate (min k n) f
  take-tabulate k n f =
      eq-tabulate d _ _ _ (omega (arith, length-take k (tabulate n f), length-tabulate n f))
        λ i h. ground (arith, get_or-take d k (tabulate n f) i, get_or-tabulate d n f i)

  -- A table whose first part is `f` and whose rest is `ys`.
  pub tabulate-append :
      (n m : ℕ) (f g : ℕ → A) (ys : List A)
      → m ≡ n + length ys
      → ((i : ℕ) → i < n → g i ≡ f i)
      → ((i : ℕ) → i < length ys → g (n + i) ≡ get_or ys i d)
      → tabulate m g ≡ tabulate n f ++ ys
  tabulate-append n m f g ys e front back = sym (
      eq-tabulate d (tabulate n f ++ ys) m g
        (omega (arith, length-append (tabulate n f) ys, length-tabulate n f))
        λ i h. ground (
          arith,
          get_or-append d (tabulate n f) ys i,
          length-tabulate n f,
          get_or-tabulate d n f i,
          front i,
          back (i - n),
        ))

  pub eq-tabulate_self : (xs : List A) → xs ≡ tabulate (length xs) (λ i. get_or xs i d)
  eq-tabulate_self xs = eq-tabulate d xs _ _ (omega arith) (λ i h. cc)
