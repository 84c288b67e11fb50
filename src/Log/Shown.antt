-- ===== src/Log/Shown.antt =====
-- Which messages src/log.c shows.
use extlib.Common.{
  ℕ, zero, suc, ◌/◌, ◌≤◌, ◌<◌, ◌≡◌, inl, inr, refl, true, ◌&&◌, not, some, [], ◌∷◌, ◌++◌, arith,
  ltb, ◌==◌, if◌then◌else◌, length, length-append, ok, Bytes, Bool-cases,
}
use extlib.Log.{level_none, level_fatal, prefix_of, tenths, line_of, write_message, log_message}

-- Every level has a prefix, and it fits its field.
prefix_of-fits :
    (level : ℕ) → level ≤ level_fatal → (p : Bytes) × (prefix_of level ≡ some p) × (length p < 40)
unfolding prefix_of
prefix_of-fits zero h = (_, refl, omega arith)
prefix_of-fits (suc zero) h = (_, refl, omega arith)
prefix_of-fits (suc (suc zero)) h = (_, refl, omega arith)
prefix_of-fits (suc (suc (suc zero))) h = (_, refl, omega arith)
prefix_of-fits (suc (suc (suc (suc zero)))) h = (_, refl, omega arith)
prefix_of-fits (suc (suc (suc (suc (suc zero))))) h = (_, refl, omega arith)
prefix_of-fits (suc (suc (suc (suc (suc (suc zero)))))) h = (_, refl, omega arith)
prefix_of-fits (suc (suc (suc (suc (suc (suc (suc n))))))) h = absurd (omega (arith, h))

write_message-line_of :
    (date : Bytes) (usec level : ℕ) (text p : Bytes)
    → prefix_of level ≡ some p
    → length p < 40
    → length date < 27
    → write_message date usec level text ≡ ok (0, line_of (date ++ tenths (usec / 100)) p text)
unfolding write_message
write_message-line_of date usec level text p e fits short =
    let in_prefix : ltb (length p) 40 ≡ true = ground (arith, fits) in
    let in_buf : ltb (length (date ++ tenths (usec / 100))) 32 ≡ true =
      ground (arith, length-append date (tenths (usec / 100))) in
    rw (e, in_prefix, in_buf, write_message) refl

-- A message with a format, of one of the levels, and with a date of at most 26 characters stays inside
-- the fields: it gives 0, and it is one line with the date, the tenths of milliseconds, the prefix
-- of its level and the text, or nothing where its level is below the limit and not `LOG_LV_NONE`.
pub log_message-line_of :
    (limit : ℕ) (date : Bytes) (usec level c : ℕ) (cs text : Bytes)
    → level ≤ level_fatal
    → length date < 27
    → (p : Bytes) × (prefix_of level ≡ some p)
      × (log_message limit date usec level (some (c ∷ cs)) text
          ≡ ok (
            0,
            (if ltb level limit && not (level == level_none)
                then []
                else line_of (date ++ tenths (usec / 100)) p text),
          ))
unfolding log_message
log_message-line_of limit date usec level c cs text h short =
    let (p, e, fits) = prefix_of-fits level h in
    let w = write_message-line_of date usec level text p e fits short in
    (
      p,
      e,
      elim (Bool-cases (ltb level limit && not (level == level_none))) [
        | inl hidden ↦ rw (hidden, log_message) refl
        | inr shown ↦ rw (shown, w, log_message) refl
      ],
    )
