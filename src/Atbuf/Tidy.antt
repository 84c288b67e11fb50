-- ===== src/Atbuf/Tidy.antt =====
-- `atbuf_tidy` in closed form: what it returns on a buffer whose offsets lie in the block.
use extlib.Common.{
  ◌+◌, ◌-◌, ◌/◌, ◌≤◌, ◌≡◌, refl, ◌∙◌, ◌||◌, [], ◌∷◌, arith, ltb, ◌==◌, if◌then◌else◌, take, drop,
  overwrite, length-overwrite, length-take, length-drop, get_or-overwrite, get_or-take, get_or-drop,
  tabulate_congr, ok, copy-ok,
}
use extlib.Atbuf.{Atbuf, used, spare, shift_down, compact, tidy}
use extlib.Atbuf.Inv.{InBounds, IsValid, contents}

-- without the wrap-around that bounds rule out
pub used-eq : {b : Atbuf} → InBounds b → used b ≡ b.offset_in - b.offset_out
used-eq v = omega arith

pub spare-eq : {b : Atbuf} → InBounds b → spare b ≡ b.size - b.offset_in
spare-eq v = omega arith

abbrev shifted : Atbuf → Atbuf
shifted b =
    let n = b.offset_in - b.offset_out in
    record b {
      rawbuf = overwrite b.rawbuf 0 (take n (drop b.offset_out b.rawbuf));
      offset_in = n;
      offset_out = 0;
    }

shift_down-ok : {b : Atbuf} → InBounds b → shift_down b ≡ ok (shifted b)
unfolding shift_down
shift_down-ok {b} v = rw (
  used-eq v,
  copy-ok b.rawbuf 0 b.rawbuf b.offset_out (b.offset_in - b.offset_out) (omega arith) (omega arith),
)

shifted-InBounds : {b : Atbuf} → InBounds b → InBounds (shifted b)
shifted-InBounds {b} v = omega (
  arith,
  length-overwrite b.rawbuf 0 (take (b.offset_in - b.offset_out) (drop b.offset_out b.rawbuf)),
)

contents-shifted : {b : Atbuf} → InBounds b → contents (shifted b) ≡ contents b
contents-shifted {b} v = tabulate_congr _ _ _ (omega arith) λ i h.
    let n = b.offset_in - b.offset_out in
    let moved = take n (drop b.offset_out b.rawbuf) in
    ground (
      arith,
      get_or-overwrite 0 b.rawbuf 0 moved i,
      get_or-take 0 n (drop b.offset_out b.rawbuf) i,
      get_or-drop 0 b.offset_out b.rawbuf i,
      length-take n (drop b.offset_out b.rawbuf),
      length-drop b.offset_out b.rawbuf,
    )

abbrev compacted : Atbuf → Atbuf
compacted b =
    if b.offset_in == b.offset_out
    then record b { offset_in = 0; offset_out = 0 }
    else if ltb (b.size - b.offset_in) (b.size / 4) || ltb (b.size / 4) b.offset_out
    then shifted b
    else b

compact-ok : {b : Atbuf} → InBounds b → compact b ≡ ok (compacted b)
unfolding compact
compact-ok {b} v = ground (arith, shift_down-ok v)

compacted-InBounds : {b : Atbuf} → InBounds b → InBounds (compacted b)
compacted-InBounds {b} v = ground (arith, shifted-InBounds v)

contents-empty : (b : Atbuf) → b.offset_in ≡ b.offset_out → contents b ≡ []
contents-empty b e = tabulate_congr _ {m = 0} _ (λ i. i) (omega arith) (λ i h. absurd (omega arith))

contents-compacted : {b : Atbuf} → InBounds b → contents (compacted b) ≡ contents b
contents-compacted {b} v = ground (arith, contents-shifted v, contents-empty b)

-- the byte that ends the text
abbrev ended : Atbuf → Atbuf
ended b = record b { rawbuf = overwrite b.rawbuf b.offset_in (0 ∷ []) }

ended-IsValid : {b : Atbuf} → InBounds b → IsValid (ended b)
ended-IsValid {b} v = ground (
  arith,
  length-overwrite b.rawbuf b.offset_in (0 ∷ []),
  get_or-overwrite 1 b.rawbuf b.offset_in (0 ∷ []) b.offset_in,
)

contents-ended : {b : Atbuf} → InBounds b → contents (ended b) ≡ contents b
contents-ended {b} v =
    tabulate_congr _ _ _ refl
      λ i h. ground (arith, get_or-overwrite 0 b.rawbuf b.offset_in (0 ∷ []) (b.offset_out + i))

-- the buffer that `atbuf_tidy` leaves
unfoldable pub tidied : Atbuf → Atbuf
tidied b = ended (compacted b)

pub tidy-ok : {b : Atbuf} → InBounds b → tidy b ≡ ok (spare (tidied b), tidied b)
unfolding tidy tidied
tidy-ok {b} v =
    let c = compacted-InBounds v in
    rw
      (
        compact-ok v,
        copy-ok (compacted b).rawbuf (compacted b).offset_in (0 ∷ []) 0 1 (omega arith)
            (omega arith),
      )
      refl

pub tidied-IsValid : {b : Atbuf} → InBounds b → IsValid (tidied b)
unfolding tidied
tidied-IsValid v = ended-IsValid (compacted-InBounds v)

pub contents-tidied : {b : Atbuf} → InBounds b → contents (tidied b) ≡ contents b
unfolding tidied
contents-tidied v = contents-ended (compacted-InBounds v) ∙ contents-compacted v

pub size-tidied : (b : Atbuf) → (tidied b).size ≡ b.size
unfolding tidied
size-tidied b = ground arith

-- the offsets never move right, and a reader finds nothing but unread bytes when none are left
pub tidied-offsets :
    {b : Atbuf}
    → InBounds b
    → ((tidied b).offset_in ≤ b.offset_in)
      × ((tidied b).offset_in - (tidied b).offset_out ≡ b.offset_in - b.offset_out)
unfolding tidied
tidied-offsets v = ground arith
