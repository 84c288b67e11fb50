-- ===== src/Text/Search.antt =====
-- Looking for texts in texts.
use extlib.Common.{
  ◌≤◌, ℕ, ◌≡◌, refl, true, false, some, [], ◌∷◌, ◌++◌, arith, ◌==◌, length, All, Bytes,
}
use extlib.Text.{starts, text_at, find_text}

-- a text without the byte
abbrev pub Lacks : ℕ → Bytes → Type 0
Lacks c s = All (λ x. (c == x) ≡ false) s

pub text_at_end : (s rest : Bytes) → Lacks 0 s → text_at (s ++ (0 ∷ rest)) ≡ s
unfolding text_at
text_at_end [] rest h = refl
text_at_end (c ∷ s) rest (k, h) = ground (arith, text_at_end s rest h)

-- A text is found where it stands, if the bytes before that lack its first.
pub find_text_behind :
    (c : ℕ) (pat xs ys : Bytes)
    → Lacks c xs
    → starts (c ∷ pat) ys ≡ true
    → find_text (c ∷ pat) (xs ++ ys) ≡ some (length xs)
unfolding find_text starts
find_text_behind c pat [] [] h e = absurd (ground arith)
find_text_behind c pat [] (y ∷ ys) h e = ground arith
find_text_behind c pat (x ∷ xs) ys (k, h) e = ground (arith, find_text_behind c pat xs ys h e)

pub length-text_at : (xs rest : Bytes) → length (text_at (xs ++ (0 ∷ rest))) ≤ length xs
unfolding text_at
length-text_at [] rest = omega arith
length-text_at (x ∷ xs) rest = ground (arith, length-text_at xs rest)
