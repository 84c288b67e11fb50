-- ===== src/Err/Table.antt =====
-- What src/err.c promises: the first message that was registered for an errno.
use extlib.Common.{
  ℕ, ◌≡◌, refl, sym, ap, ◌∙◌, ◌⊎◌, inl, inr, Bool, true, false, Option, none, some, List, [], ◌∷◌,
  ◌==◌, if◌then◌else◌, arith, Bool-cases, Rc, success, failure, Bytes,
}
use extlib.Text.{codes}
use extlib.Err.{
  Errx, ErrTable, empty_table, find_in, bucket, find_errx, errx_register, errx_strerr, register_all,
}

-- the messages, without a table
unfoldable pub message : List (ℕ × Bytes) → ℕ → Option Bytes
message [] errno = none
message ((e, m) ∷ es) errno = if e == errno then some m else message es errno

-- registering after those that were registered before, the newest last
pub note : ℕ → Bytes → List (ℕ × Bytes) → Rc × List (ℕ × Bytes)
note errno errmsg es = elim (message es errno) [
  | some m ↦ (failure, es)
  | none ↦ (success, (errno, errmsg) ∷ es)
]

pub note_all : List (ℕ × Bytes) → List (ℕ × Bytes) → List Rc × List (ℕ × Bytes)
note_all [] es = ([], es)
note_all ((e, m) ∷ rest) es =
    let (rc, fs) = note e m es in let (rcs, gs) = note_all rest fs in (rc ∷ rcs, gs)

abbrev pub errmsg_of : Option Errx → Option Bytes
errmsg_of none = none
errmsg_of (some err) = some err.errmsg

errmsg_of-if :
    (b : Bool) (err : Errx) (o : Option Errx)
    → errmsg_of (if b then some err else o) ≡ (if b then some err.errmsg else errmsg_of o)
errmsg_of-if true err o = refl
errmsg_of-if false err o = refl

-- The table holds the messages.
pub Holds : (ℕ → Bytes) → ErrTable → List (ℕ × Bytes) → Type 0
Holds print t es = (errno : ℕ) → errmsg_of (find_errx print t errno) ≡ message es errno

module _ (print : ℕ → Bytes) where
  -- a new entry is found by its errno, and the others as before
  find_errx-new :
      (err : Errx) (list : List Errx) (t : ErrTable) (x : ℕ)
      → find_errx print
          (record {
            err_hlist =
                λ j. if j == bucket print err.errno then err ∷ t.err_hlist j else t.err_hlist j;
            err_list = list;
          })
          x
        ≡ (if err.errno == x then some err else find_errx print t x)
  unfolding find_errx find_in
  find_errx-new err list t x = elim (Bool-cases (err.errno == x)) [
    | inl e ↦ ground (arith, e)
    | inr e ↦ ground (arith, e)
  ]

  register-Holds :
      (errno : ℕ) (errmsg : Bytes) (t : ErrTable) (es : List (ℕ × Bytes))
      → Holds print t es
      → ((errx_register print errno errmsg t).0 ≡ (note errno errmsg es).0)
        × Holds print (errx_register print errno errmsg t).1 (note errno errmsg es).1
  unfolding Holds errx_register note message
  register-Holds errno errmsg t es h =
      by_found (find_errx print t errno) refl (message es errno) refl
    where
      by_found :
          (o : Option Errx)
          → find_errx print t errno ≡ o
          → (q : Option Bytes) → message es errno ≡ q
          → ((errx_register print errno errmsg t).0 ≡ (note errno errmsg es).0)
            × Holds print (errx_register print errno errmsg t).1 (note errno errmsg es).1
      by_found (some err) e (some m) f = rw (e, f, errx_register, note) (refl, h)
      by_found none e none f =
          let err : Errx = record { errno = errno; errmsg = errmsg } in
          rw (e, f, errx_register, note)
            (
              refl,
              λ x.
                  ap errmsg_of (find_errx-new err (err ∷ t.err_list) t x)
                  ∙ errmsg_of-if (errno == x) err (find_errx print t x)
                  ∙ ap (λ o. if errno == x then some errmsg else o) (h x),
            )
      by_found (some err) e none f =
          let p : some err.errmsg ≡ none = ap errmsg_of (sym e) ∙ h errno ∙ f in cc
      by_found none e (some m) f = let p : none ≡ some m = ap errmsg_of (sym e) ∙ h errno ∙ f in cc

  register_all-Holds :
      (es : List (ℕ × Bytes)) (t : ErrTable) (ms : List (ℕ × Bytes))
      → Holds print t ms
      → ((register_all print es t).0 ≡ (note_all es ms).0)
        × Holds print (register_all print es t).1 (note_all es ms).1
  unfolding register_all note_all
  register_all-Holds [] t ms h = (refl, h)
  register_all-Holds ((e, m) ∷ es) t ms h =
      let (same_rc, k) = register-Holds e m t ms h in
      let (same_rcs, l) = register_all-Holds es (errx_register print e m t).1 (note e m ms).1 k in
      (
        ap (λ r. r ∷ (register_all print es (errx_register print e m t).1).0) same_rc
            ∙ ap (λ rs. (note e m ms).0 ∷ rs) same_rcs,
        l,
      )

-- the first answer that there is
abbrev or_else : Option Bytes → Option Bytes → Option Bytes
or_else none q = q
or_else (some m) q = some m

or_else-none : (o : Option Bytes) → o ≡ or_else o none
or_else-none none = refl
or_else-none (some m) = refl

or_else_first :
    (o : Option Bytes) (b : Bool) (m : Bytes) (q : Option Bytes)
    → or_else (or_else o (if b then some m else none)) q ≡ or_else o (if b then some m else q)
or_else_first none true m q = refl
or_else_first none false m q = refl
or_else_first (some n) b m q = refl

message-note :
    (e : ℕ) (m : Bytes) (ms : List (ℕ × Bytes)) (x : ℕ)
    → message (note e m ms).1 x ≡ or_else (message ms x) (if e == x then some m else none)
unfolding note message
message-note e m ms x = by_message (message ms e) refl (message ms x) refl (Bool-cases (e == x))
  where
    by_message :
        (o : Option Bytes)
        → message ms e ≡ o
        → (q : Option Bytes) → message ms x ≡ q
        → ((e == x) ≡ true) ⊎ ((e == x) ≡ false)
        → message (note e m ms).1 x ≡ or_else (message ms x) (if e == x then some m else none)
    by_message o f q g b = ground (arith, f, g, b)

message-note_all :
    (es ms : List (ℕ × Bytes)) (x : ℕ)
    → message (note_all es ms).1 x ≡ or_else (message ms x) (message es x)
unfolding note_all message
message-note_all [] ms x = or_else-none (message ms x)
message-note_all ((e, m) ∷ es) ms x =
    message-note_all es (note e m ms).1 x
    ∙ ap (λ o. or_else o (message es x)) (message-note e m ms x)
    ∙ or_else_first (message ms x) (e == x) m (message es x)

empty_table-Holds : (print : ℕ → Bytes) → Holds print empty_table []
unfolding Holds find_errx find_in message
empty_table-Holds print x = refl

Holds-here :
    (print : ℕ → Bytes) (t : ErrTable) (es : List (ℕ × Bytes)) (x : ℕ)
    → Holds print t es
    → errmsg_of (find_errx print t x) ≡ message es x
unfolding Holds
Holds-here print t es x h = h x

-- what `errx_strerr` says where there is no message
abbrev pub or_unknown : Option Bytes → Bytes
or_unknown none = codes "Unknown errno"
or_unknown (some m) = m

errmsg_of-strerr :
    (o : Option Errx)
    → (elim o [ none ↦ codes "Unknown errno" | some err ↦ err.errmsg ]) ≡ or_unknown (errmsg_of o)
errmsg_of-strerr none = refl
errmsg_of-strerr (some err) = refl

-- However an errno is printed, from an empty table a sequence of calls of `errx_register` returns
-- what noting the messages in one list returns, and `errx_strerr` then gives the first message that
-- was registered for an errno, or says that there is none.
pub register_all-message :
    (print : ℕ → Bytes) (es : List (ℕ × Bytes)) (x : ℕ)
    → ((register_all print es empty_table).0 ≡ (note_all es []).0)
      × (errx_strerr print (register_all print es empty_table).1 x ≡ or_unknown (message es x))
unfolding errx_strerr message
register_all-message print es x =
    let (same_rcs, holds) = register_all-Holds print es empty_table [] (empty_table-Holds print) in
    let t = (register_all print es empty_table).1 in
    (
      same_rcs,
      errmsg_of-strerr (find_errx print t x)
          ∙ ap or_unknown
              (Holds-here print t (note_all es []).1 x holds ∙ message-note_all es [] x),
    )
