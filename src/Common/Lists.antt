-- ===== src/Common/Lists.antt =====
-- C arrays as lists: length and indices are native numbers.
use Prim.Native.Nat.{ℕ, zero, suc, ◌+◌, ◌-◌, ◌<◌, ◌≤◌, min}
use mathlib.Core.Path.{◌≡◌, refl, ap, ap₂}
use mathlib.Core.Bool.{◌&&◌}
use mathlib.Core.List.{List, [], ◌∷◌, ◌++◌}
use native.Mathlib.Omega.{arith}
use extlib.Common.Tests.{ltb, leb, if◌then◌else◌}

module _ {ℓ} {A : Type ℓ} where
  abbrev pub length : List A → ℕ
  length [] = 0
  length (x ∷ xs) = suc (length xs)

  abbrev pub get_or : List A → ℕ → A → A
  get_or [] i d = d
  get_or (x ∷ xs) zero d = x
  get_or (x ∷ xs) (suc i) d = get_or xs i d

  abbrev pub take : ℕ → List A → List A
  take zero xs = []
  take (suc n) [] = []
  take (suc n) (x ∷ xs) = x ∷ take n xs

  abbrev pub drop : ℕ → List A → List A
  drop zero xs = xs
  drop (suc n) [] = []
  drop (suc n) (x ∷ xs) = drop n xs

  abbrev pub replicate : ℕ → A → List A
  replicate zero a = []
  replicate (suc n) a = a ∷ replicate n a

  -- `xs` with the elements from index `p` on replaced by `ys`, as far as `xs` goes.
  abbrev pub overwrite : List A → ℕ → List A → List A
  overwrite [] p ys = []
  overwrite (x ∷ xs) (suc p) ys = x ∷ overwrite xs p ys
  overwrite (x ∷ xs) zero [] = x ∷ xs
  overwrite (x ∷ xs) zero (y ∷ ys) = y ∷ overwrite xs zero ys

  -- `f 0`, …, `f (n - 1)`
  abbrev pub tabulate : ℕ → (ℕ → A) → List A
  tabulate zero f = []
  tabulate (suc n) f = f zero ∷ tabulate n (λ i. f (suc i))

  pub length-append : (xs ys : List A) → length (xs ++ ys) ≡ length xs + length ys
  length-append [] ys = omega arith
  length-append (x ∷ xs) ys = omega (arith, length-append xs ys)

  pub length-take : (n : ℕ) (xs : List A) → length (take n xs) ≡ min n (length xs)
  length-take zero xs = omega arith
  length-take (suc n) [] = omega arith
  length-take (suc n) (x ∷ xs) = omega (arith, length-take n xs)

  pub length-drop : (n : ℕ) (xs : List A) → length (drop n xs) ≡ length xs - n
  length-drop zero xs = omega arith
  length-drop (suc n) [] = omega arith
  length-drop (suc n) (x ∷ xs) = omega (arith, length-drop n xs)

  pub drop-append : (xs ys : List A) → drop (length xs) (xs ++ ys) ≡ ys
  drop-append [] ys = refl
  drop-append (x ∷ xs) ys = drop-append xs ys

  pub take-append : (xs ys : List A) → take (length xs) (xs ++ ys) ≡ xs
  take-append [] ys = refl
  take-append (x ∷ xs) ys = ap (λ t. x ∷ t) (take-append xs ys)

  pub take_all : (n : ℕ) (xs : List A) → length xs < n + 1 → take n xs ≡ xs
  take_all zero [] h = refl
  take_all zero (x ∷ xs) h = absurd (omega (arith, h))
  take_all (suc n) [] h = refl
  take_all (suc n) (x ∷ xs) h = ap (λ t. x ∷ t) (take_all n xs (omega (arith, h)))

  pub drop-min : (n : ℕ) (xs : List A) → drop (min n (length xs)) xs ≡ drop n xs
  drop-min zero xs = let e : min 0 (length xs) ≡ 0 = omega arith in rw e
  drop-min (suc n) [] = let e : min (suc n) (length []) ≡ 0 = omega arith in rw e
  drop-min (suc n) (x ∷ xs) =
      let e : min (suc n) (length (x ∷ xs)) ≡ suc (min n (length xs)) = omega arith in
      rw e (drop-min n xs)

  pub take-min : (n : ℕ) (xs : List A) → take (min n (length xs)) xs ≡ take n xs
  take-min zero xs = let e : min 0 (length xs) ≡ 0 = omega arith in rw e
  take-min (suc n) [] = let e : min (suc n) (length []) ≡ 0 = omega arith in rw e
  take-min (suc n) (x ∷ xs) =
      let e : min (suc n) (length (x ∷ xs)) ≡ suc (min n (length xs)) = omega arith in
      rw e (ap (λ t. x ∷ t) (take-min n xs))

  pub append-take-drop : (n : ℕ) (xs : List A) → take n xs ++ drop n xs ≡ xs
  append-take-drop zero xs = refl
  append-take-drop (suc n) [] = refl
  append-take-drop (suc n) (x ∷ xs) = ap (λ t. x ∷ t) (append-take-drop n xs)

  pub take-overwrite :
      (xs ys : List A) → length ys ≤ length xs → take (length ys) (overwrite xs 0 ys) ≡ ys
  take-overwrite [] [] h = refl
  take-overwrite [] (y ∷ ys) h = absurd (omega (arith, h))
  take-overwrite (x ∷ xs) [] h = refl
  take-overwrite (x ∷ xs) (y ∷ ys) h = ap (λ t. y ∷ t) (take-overwrite xs ys (omega (arith, h)))

  pub length-replicate : (n : ℕ) (a : A) → length (replicate n a) ≡ n
  length-replicate zero a = refl
  length-replicate (suc n) a = ap suc (length-replicate n a)

  pub length-overwrite :
      (xs : List A) (p : ℕ) (ys : List A) → length (overwrite xs p ys) ≡ length xs
  length-overwrite [] p ys = refl
  length-overwrite (x ∷ xs) (suc p) ys = ap suc (length-overwrite xs p ys)
  length-overwrite (x ∷ xs) zero [] = refl
  length-overwrite (x ∷ xs) zero (y ∷ ys) = ap suc (length-overwrite xs zero ys)

  pub overwrite-nil : (xs : List A) (p : ℕ) → overwrite xs p [] ≡ xs
  overwrite-nil [] p = refl
  overwrite-nil (x ∷ xs) (suc p) = ap (λ t. x ∷ t) (overwrite-nil xs p)
  overwrite-nil (x ∷ xs) zero = refl

  -- Two writes one behind the other are one.
  pub overwrite-append :
      (xs : List A) (p : ℕ) (ys zs : List A)
      → overwrite (overwrite xs p ys) (p + length ys) zs ≡ overwrite xs p (ys ++ zs)
  overwrite-append [] p ys zs = refl
  overwrite-append (x ∷ xs) (suc p) ys zs =
      let e : suc p + length ys ≡ suc (p + length ys) = omega arith in
      rw e (ap (λ t. x ∷ t) (overwrite-append xs p ys zs))
  overwrite-append (x ∷ xs) zero [] zs = refl
  overwrite-append (x ∷ xs) zero (y ∷ ys) zs =
      let e : 0 + suc (length ys) ≡ suc (0 + length ys) = omega arith in
      rw e (ap (λ t. y ∷ t) (overwrite-append xs zero ys zs))

  pub length-tabulate : (n : ℕ) (f : ℕ → A) → length (tabulate n f) ≡ n
  length-tabulate zero f = refl
  length-tabulate (suc n) f = ap suc (length-tabulate n (λ i. f (suc i)))

-- Case splits on numbers are made at `Type 0`, where the bytes of a buffer stand.
module _ {A : Type 0} (d : A) where
  pub get_or-append :
      (xs ys : List A) (i : ℕ)
      → get_or (xs ++ ys) i d
        ≡ (if ltb i (length xs) then get_or xs i d else get_or ys (i - length xs) d)
  get_or-append [] ys i = ground arith
  get_or-append (x ∷ xs) ys zero = ground arith
  get_or-append (x ∷ xs) ys (suc i) = ground (arith, get_or-append xs ys i)

  pub get_or-take :
      (n : ℕ) (xs : List A) (i : ℕ)
      → get_or (take n xs) i d ≡ (if ltb i n then get_or xs i d else d)
  get_or-take zero xs i = ground arith
  get_or-take (suc n) [] i = ground arith
  get_or-take (suc n) (x ∷ xs) zero = ground arith
  get_or-take (suc n) (x ∷ xs) (suc i) = ground (arith, get_or-take n xs i)

  pub get_or-drop : (n : ℕ) (xs : List A) (i : ℕ) → get_or (drop n xs) i d ≡ get_or xs (n + i) d
  get_or-drop zero xs i = ap (λ k. get_or xs k d) (omega arith)
  get_or-drop (suc n) [] i = refl
  get_or-drop (suc n) (x ∷ xs) i = ground (arith, get_or-drop n xs i)

  pub get_or-replicate :
      (n : ℕ) (a : A) (i : ℕ) → get_or (replicate n a) i d ≡ (if ltb i n then a else d)
  get_or-replicate zero a i = ground arith
  get_or-replicate (suc n) a zero = ground arith
  get_or-replicate (suc n) a (suc i) = ground (arith, get_or-replicate n a i)

  pub get_or-beyond : (xs : List A) (i : ℕ) → length xs ≤ i → get_or xs i d ≡ d
  get_or-beyond [] i h = refl
  get_or-beyond (x ∷ xs) zero h = absurd (omega arith)
  get_or-beyond (x ∷ xs) (suc i) h = get_or-beyond xs i (omega arith)

  pub get_or-tabulate :
      (n : ℕ) (f : ℕ → A) (i : ℕ) → get_or (tabulate n f) i d ≡ (if ltb i n then f i else d)
  get_or-tabulate zero f i = ground arith
  get_or-tabulate (suc n) f zero = ground arith
  get_or-tabulate (suc n) f (suc i) = ground (arith, get_or-tabulate n (λ j. f (suc j)) i)

  pub get_or-overwrite :
      (xs : List A) (p : ℕ) (ys : List A) (i : ℕ)
      → i < length xs
      → get_or (overwrite xs p ys) i d
        ≡ (if leb p i && ltb i (p + length ys) then get_or ys (i - p) d else get_or xs i d)
  get_or-overwrite [] p ys i h = absurd (omega arith)
  get_or-overwrite (x ∷ xs) (suc p) ys zero h = ground arith
  get_or-overwrite (x ∷ xs) (suc p) ys (suc i) h = ground (arith, get_or-overwrite xs p ys i)
  get_or-overwrite (x ∷ xs) zero [] i h = ground arith
  get_or-overwrite (x ∷ xs) zero (y ∷ ys) zero h = ground arith
  get_or-overwrite (x ∷ xs) zero (y ∷ ys) (suc i) h = ground (arith, get_or-overwrite xs zero ys i)

  -- Two lists of one length that agree at every index are one list.
  pub list_ext :
      (xs ys : List A)
      → length xs ≡ length ys
      → ((i : ℕ) → i < length xs → get_or xs i d ≡ get_or ys i d)
      → xs ≡ ys
  list_ext [] [] e h = refl
  list_ext [] (y ∷ ys) e h = absurd (omega arith)
  list_ext (x ∷ xs) [] e h = absurd (omega arith)
  list_ext (x ∷ xs) (y ∷ ys) e h =
      ap₂ ◌∷◌ (h 0 (omega arith)) (list_ext xs ys (omega arith) (λ i k. h (suc i) (omega arith)))

module _ {A : Type 0} where
  pub tabulate_congr :
      (n : ℕ) {m : ℕ} (f g : ℕ → A)
      → n ≡ m
      → ((i : ℕ) → i < n → f i ≡ g i)
      → tabulate n f ≡ tabulate m g
  tabulate_congr zero {m = zero} f g e h = refl
  tabulate_congr zero {m = suc m} f g e h = absurd (omega arith)
  tabulate_congr (suc n) {m = zero} f g e h = absurd (omega arith)
  tabulate_congr (suc n) {m = suc m} f g e h = ap₂ ◌∷◌ (h 0 (omega arith)) (
      tabulate_congr n (λ i. f (suc i)) (λ i. g (suc i)) (omega arith)
        (λ i k. h (suc i) (omega arith)))

  -- A list is the table of its elements.
  pub eq-tabulate :
      (d : A) (xs : List A) (n : ℕ) (f : ℕ → A)
      → length xs ≡ n
      → ((i : ℕ) → i < n → get_or xs i d ≡ f i)
      → xs ≡ tabulate n f
  eq-tabulate d xs n f e h =
      list_ext d xs (tabulate n f) (omega (arith, length-tabulate n f))
        λ i k. ground (arith, h i, get_or-tabulate d n f i)
