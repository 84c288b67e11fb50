-- ===== src/Stringx.antt =====
-- `trim` of src/stringx.c.
mod Examples
use mathlib.Core.Path.{subst}
use extlib.Common.{
  ℕ, suc, zero, ◌+◌, ◌≡◌, refl, sym, ap, ◌∙◌, inl, inr, Bool, true, false, List, [], ◌∷◌, ◌++◌,
  ◌==◌, if◌then◌else◌, Bool-cases, replicate, get_or, arith, Bytes, ◌⊎◌,
}

-- the first loop
skip_front : ℕ → Bytes → Bytes
skip_front c [] = []
skip_front c (x ∷ s) = let rest = skip_front c s in if x == c then rest else x ∷ s

-- The walk back from the end, which stops at the latest where the first loop did.
skip_back : ℕ → Bytes → Bytes
skip_back c [] = []
skip_back c (x ∷ s) = elim (skip_back c s) [
  | [] ↦ if x == c then [] else x ∷ []
  | y ∷ t ↦ x ∷ y ∷ t
]

-- the text without the byte at both ends, a space where it is 0
pub trim : Bytes → ℕ → Bytes
unfolding skip_front skip_back
trim str c = let b = if c == 0 then 32 else c in skip_back b (skip_front b str)

-- The text does not begin with the byte.
abbrev pub BeginsNot : ℕ → Bytes → Type 0
BeginsNot c [] = Unit
BeginsNot c (x ∷ s) = (x == c) ≡ false

-- nor does it end with it
abbrev pub EndsNot : ℕ → Bytes → Type 0
EndsNot c [] = Unit
EndsNot c (x ∷ []) = (x == c) ≡ false
EndsNot c (x ∷ y ∷ s) = EndsNot c (y ∷ s)

front_parts :
    (c : ℕ) (s : Bytes)
    → (i : ℕ) × (s ≡ replicate i c ++ skip_front c s) × BeginsNot c (skip_front c s)
unfolding skip_front
front_parts c [] = (0, refl, tt)
front_parts c (x ∷ s) = elim (Bool-cases (x == c)) [
  | inl e ↦
      let (i, parts, begins) = front_parts c s in
      let x_is_c : x ≡ c = ground (arith, e) in
      (
        suc i,
        rw e (ap (λ t. x ∷ t) parts ∙ ap (λ y. y ∷ (replicate i c ++ skip_front c s)) x_is_c),
        rw e begins,
      )
  | inr e ↦ (0, rw e refl, rw e e)
]

back_parts :
    (c : ℕ) (s : Bytes) → (j : ℕ) × (s ≡ skip_back c s ++ replicate j c) × EndsNot c (skip_back c s)
unfolding skip_back
back_parts c [] = (0, refl, tt)
back_parts c (x ∷ s) =
    let (j, parts, ends) = back_parts c s in
    by_rest (skip_back c s) refl j parts ends (Bool-cases (x == c))
  where
    by_rest :
        (r : Bytes)
        → skip_back c s ≡ r
        → (j : ℕ) → s ≡ skip_back c s ++ replicate j c
        → EndsNot c (skip_back c s)
        → ((x == c) ≡ true) ⊎ ((x == c) ≡ false)
        → (j : ℕ) × (x ∷ s ≡ skip_back c (x ∷ s) ++ replicate j c) × EndsNot c (skip_back c (x ∷ s))
    by_rest [] e j parts ends (inl f) =
        let x_is_c : x ≡ c = ground (arith, f) in
        let tail : s ≡ replicate j c = parts ∙ ap (λ t. t ++ replicate j c) e in
        (
          suc j,
          rw (e, f, skip_back) (ap (λ y. y ∷ s) x_is_c ∙ ap (λ t. c ∷ t) tail),
          rw (e, f, skip_back) tt,
        )
    by_rest [] e j parts ends (inr f) = (
      j,
      rw (e, f, skip_back) (ap (λ t. x ∷ t) (parts ∙ ap (λ t. t ++ replicate j c) e)),
      rw (e, f, skip_back) f,
    )
    by_rest (y ∷ t) e j parts ends f = (
      j,
      rw (e, skip_back) (ap (λ t. x ∷ t) (parts ∙ ap (λ t. t ++ replicate j c) e)),
      rw (e, skip_back) (subst (λ r. EndsNot c r) e ends),
    )

back_begins : (c : ℕ) (s : Bytes) → BeginsNot c s → BeginsNot c (skip_back c s)
unfolding skip_back
back_begins c [] h = tt
back_begins c (x ∷ s) h = by_rest (skip_back c s) refl
  where
    by_rest : (r : Bytes) → skip_back c s ≡ r → BeginsNot c (skip_back c (x ∷ s))
    by_rest [] e = rw (e, h, skip_back) h
    by_rest (y ∷ t) e = rw (e, skip_back) h

-- For a byte that is not 0, the text is the trimmed one between copies of the byte, at neither end of
-- which it stands.
pub trim-parts :
    (str : Bytes) (c : ℕ)
    → (c == 0) ≡ false
    → (i : ℕ) × (j : ℕ) × (str ≡ replicate i c ++ (trim str c ++ replicate j c))
      × BeginsNot c (trim str c)
      × EndsNot c (trim str c)
unfolding trim
trim-parts str c h =
    let (i, front, begins) = front_parts c str in
    let (j, back, ends) = back_parts c (skip_front c str) in
    (
      i,
      j,
      rw h (front ∙ ap (λ t. replicate i c ++ t) back),
      rw h (back_begins c (skip_front c str) begins),
      rw h ends,
    )
