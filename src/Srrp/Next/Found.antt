-- ===== src/Srrp/Next/Found.antt =====
-- What `srrp_next_packet_offset` of src/srrp.c finds.
use mathlib.Core.Path.{subst}
use extlib.Common.{
  sym, Bool, ℕ, zero, suc, ◌<◌, ◌≡◌, refl, ap, ◌∙◌, ◌⊎◌, inl, inr, true, not, ◌&&◌, Option, none,
  some, [], ◌∷◌, arith, ◌==◌, if◌then◌else◌, length, get_or, Outcome, ok, abort, fault, Bool-cases,
  Bytes, Returns,
}
use extlib.Text.{is_digit, text_at}
use extlib.Srrp.{
  request_leader, response_leader, subscribe_leader, unsubscribe_leader, publish_leader,
}
use extlib.Srrp.Next.{find_char, is_leader, byte_before, search_leader, or_else, next_packet_offset}

get_or-text_at :
    (mem : Bytes) (i : ℕ) → i < length (text_at mem) → get_or (text_at mem) i 0 ≡ get_or mem i 0
unfolding text_at
get_or-text_at [] i h = absurd (omega (arith, h))
get_or-text_at (c ∷ mem) zero h = ground arith
get_or-text_at (c ∷ mem) (suc i) h = ground (arith, get_or-text_at mem i)

find_char-found :
    (c : ℕ) (s : Bytes) (i : ℕ) → find_char c s ≡ some i → (i < length s) × (get_or s i 0 ≡ c)
unfolding find_char
find_char-found c [] i e = cc
find_char-found c (x ∷ s) zero e = ground arith
find_char-found c (x ∷ s) (suc i) e = ground (arith, find_char-found c s i)

-- The place holds a leader with a digit behind it, and is in the text or the start.
pub record IsPlace (mem : Bytes) (i : ℕ) : Type 0 where
  pub leads : is_leader (get_or mem i 0) ≡ true
  pub counts : is_digit (get_or mem (suc i) 0) ≡ true
  pub inside : (i ≡ 0) ⊎ (i < length (text_at mem))

-- A call may fault only where there is no byte in front of the memory, or not two in it.
abbrev pub GivesPlace : Option ℕ → Bytes → Outcome (Option ℕ) → Type 0
GivesPlace before mem (ok (some i)) = IsPlace mem i
GivesPlace before mem (ok none) = Unit
GivesPlace before mem abort = ⊥
GivesPlace before mem fault = (before ≡ none) ⊎ (length mem < 2)

byte_before-cases :
    (before : Option ℕ) (mem : Bytes) (i : ℕ)
    → ((byte_before before mem i ≡ fault) × (before ≡ none))
      ⊎ ((c : ℕ) × (byte_before before mem i ≡ ok c))
unfolding byte_before
byte_before-cases none mem zero = inl (refl, refl)
byte_before-cases (some c) mem zero = inr (c, refl)
byte_before-cases before mem (suc i) = inr (get_or mem i 0, refl)

search_leader-GivesPlace :
    (before : Option ℕ) (mem : Bytes) (leader : ℕ)
    → is_leader leader ≡ true
    → GivesPlace before mem (search_leader before mem leader)
unfolding search_leader
search_leader-GivesPlace before mem leader h = by_place (find_char leader (text_at mem)) refl
  where
    found :
        (c i : ℕ)
        → find_char leader (text_at mem) ≡ some i
        → byte_before before mem i ≡ ok c
        → search_leader before mem leader
          ≡ ok (if not (c == leader) && is_digit (get_or mem (suc i) 0) then some i else none)
    found c i e f = ground (arith, e, f)

    by_place :
        (o : Option ℕ)
        → find_char leader (text_at mem) ≡ o
        → GivesPlace before mem (search_leader before mem leader)
    by_place none e = rw (e, search_leader) tt
    by_place (some i) e =
        let (inside, here) = find_char-found leader (text_at mem) i e in
        let at = get_or-text_at mem i inside in
        let leads : is_leader (get_or mem i 0) ≡ true = ap is_leader (sym at ∙ here) ∙ h in
        elim (byte_before-cases before mem i) [
          | inl (f, g) ↦ rw (e, f, search_leader) (inl g)
          | inr (c, f) ↦
              let digit : Bool = is_digit (get_or mem (suc i) 0) in
              elim (Bool-cases (not (c == leader) && digit)) [
                | inl g ↦
                    subst (GivesPlace before mem)
                      (sym (found c i e f ∙ ap (λ b. ok (if b then some i else none)) g))
                      (record { leads = leads; counts = ground arith; inside = inr inside })
                | inr g ↦
                    subst (GivesPlace before mem)
                      (sym (found c i e f ∙ ap (λ b. ok (if b then some i else none)) g)) tt
              ]
        ]

or_else-GivesPlace :
    (before : Option ℕ) (mem : Bytes) (r t : Outcome (Option ℕ))
    → GivesPlace before mem r
    → GivesPlace before mem t
    → GivesPlace before mem (or_else r t)
unfolding or_else
or_else-GivesPlace before mem (ok none) t h k = k
or_else-GivesPlace before mem (ok (some i)) t h k = h
or_else-GivesPlace before mem abort t h k = h
or_else-GivesPlace before mem fault t h k = h

searches-GivesPlace :
    (before : Option ℕ) (mem : Bytes)
    → GivesPlace before mem (
        or_else (search_leader before mem request_leader) (
          or_else (search_leader before mem response_leader) (
            or_else (search_leader before mem subscribe_leader) (
              or_else
                (search_leader before mem unsubscribe_leader)
                (search_leader before mem publish_leader)))))
searches-GivesPlace before mem =
    or_else-GivesPlace before mem _ _ (search_leader-GivesPlace before mem request_leader refl) (
      or_else-GivesPlace before mem _ _ (search_leader-GivesPlace before mem response_leader refl) (
        or_else-GivesPlace before mem _ _
          (search_leader-GivesPlace before mem subscribe_leader refl)
          (or_else-GivesPlace before mem _ _
            (search_leader-GivesPlace before mem unsubscribe_leader refl)
            (search_leader-GivesPlace before mem publish_leader refl))))

pub next_packet_offset-GivesPlace :
    (before : Option ℕ) (mem : Bytes) → GivesPlace before mem (next_packet_offset before mem)
unfolding next_packet_offset
next_packet_offset-GivesPlace before [] = inr (omega arith)
next_packet_offset-GivesPlace before (c ∷ []) = inr (omega arith)
next_packet_offset-GivesPlace before (c ∷ d ∷ mem) = elim (Bool-cases (is_digit d && is_leader c)) [
  | inl e ↦ rw e (record { leads = ground arith; counts = ground arith; inside = inl refl })
  | inr e ↦ rw e (searches-GivesPlace before (c ∷ d ∷ mem))
]

-- what a call that returns may give
abbrev pub MayGivePlace : Bytes → Option ℕ → Type 0
MayGivePlace mem none = Unit
MayGivePlace mem (some i) = IsPlace mem i

-- With a byte in front of the memory and at least two in it, the search returns, and what it finds is
-- the place of a leader with a digit behind it, in the text or at the start.
pub next_packet_offset-MayGivePlace :
    (x c d : ℕ) (mem : Bytes)
    → Returns (MayGivePlace (c ∷ d ∷ mem)) (next_packet_offset (some x) (c ∷ d ∷ mem))
next_packet_offset-MayGivePlace x c d mem =
    by_result (next_packet_offset (some x) (c ∷ d ∷ mem))
      (next_packet_offset-GivesPlace (some x) (c ∷ d ∷ mem))
  where
    by_result :
        (r : Outcome (Option ℕ))
        → GivesPlace (some x) (c ∷ d ∷ mem) r
        → Returns (MayGivePlace (c ∷ d ∷ mem)) r
    by_result (ok none) h = tt
    by_result (ok (some i)) h = h
    by_result abort h = h
    by_result fault (inl e) = cc
    by_result fault (inr e) = omega arith
