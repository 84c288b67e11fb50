-- ===== src/Opt/Kinds.antt =====
-- The kinds of the values in a table of src/opt.c.
use extlib.Common.{
  ℕ, suc, ◌≡◌, refl, sym, ap, ◌∙◌, inl, inr, Bool, true, false, Bool-cases, Option, none, some,
  List, [], ◌∷◌, if◌then◌else◌, Bytes,
}
use mathlib.Core.Option.{some-injective}
use extlib.Opt.{
  OptValue, no_value, string_static, string, integer, boolean, Opt, OptErr, no_error, unknown_opt,
  miss_arg, wrong_value, is_boolean, find_by, set_by, by_short, by_key, takes_argument, is_dashed,
  parse_value, init_from_args, scan_line, is_comment, init_from_lines, opt_init_from_file,
}

-- what the accessors tell apart
pub data Kind : Type 0 where
  nothing text number truth : Kind

abbrev pub kind : {Int : Type 0} → OptValue Int → Kind
kind no_value = nothing
kind (string_static s) = text
kind (string s) = text
kind (integer i) = number
kind (boolean b) = truth

-- what does not change of an option
abbrev pub kinds : {Int : Type 0} → List (Opt Int) → List (Bytes × Bytes × Kind)
kinds [] = []
kinds (o ∷ os) = (o.optshort, o.key, kind o.value) ∷ kinds os

-- The call leaves the kinds of the table.
abbrev KeepsKinds : {Int : Type 0} → List (Opt Int) → OptErr × List (Opt Int) → Type 0
KeepsKinds os r = kinds r.1 ≡ kinds os

module _ {Int : Type 0} (strtol : Bytes → Int) where
  parse_value-kind : (v : OptValue Int) (str : Bytes) → kind (parse_value strtol v str) ≡ kind v
  unfolding parse_value
  parse_value-kind no_value str = refl
  parse_value-kind (string_static s) str = refl
  parse_value-kind (string s) str = refl
  parse_value-kind (integer i) str = refl
  parse_value-kind (boolean b) str = refl

  is_boolean-kind : (v : OptValue Int) → is_boolean v ≡ true → truth ≡ kind v
  is_boolean-kind no_value h = cc
  is_boolean-kind (string_static s) h = cc
  is_boolean-kind (string s) h = cc
  is_boolean-kind (integer i) h = cc
  is_boolean-kind (boolean b) h = refl

  set_by-kinds :
      (test : Opt Int → Bool) (v : OptValue Int) (os : List (Opt Int)) (o : Opt Int)
      → find_by test os ≡ some o
      → kind v ≡ kind o.value
      → kinds (set_by test v os) ≡ kinds os
  unfolding find_by set_by
  set_by-kinds test v [] o h same = refl
  set_by-kinds test v (x ∷ os) o h same = elim (Bool-cases (test x)) [
    | inl e ↦
        let x_is_o : x ≡ o =
          some-injective x o (ap (λ b. if b then some x else find_by test os) (sym e) ∙ h) in
        rw e (
          ap (λ k. (x.optshort, x.key, k) ∷ kinds os)
            (same ∙ ap (λ (o : Opt Int). kind o.value) (sym x_is_o)))
    | inr e ↦ rw e (
        ap (λ ks. (x.optshort, x.key, kind x.value) ∷ ks)
          (set_by-kinds test v os o (ap (λ b. if b then some x else find_by test os) (sym e) ∙ h)
            same))
  ]

  parsed-kinds :
      (test : Opt Int → Bool) (str : Bytes) (os : List (Opt Int)) (o : Opt Int)
      → find_by test os ≡ some o
      → kinds (set_by test (parse_value strtol o.value str) os) ≡ kinds os
  parsed-kinds test str os o h =
      set_by-kinds test (parse_value strtol o.value str) os o h (parse_value-kind o.value str)

  set_true-kinds :
      (test : Opt Int → Bool) (os : List (Opt Int)) (o : Opt Int)
      → find_by test os ≡ some o
      → is_boolean o.value ≡ true
      → kinds (set_by test (boolean true) os) ≡ kinds os
  set_true-kinds test os o h b = set_by-kinds test (boolean true) os o h (is_boolean-kind o.value b)

  init_from_lines-kinds :
      (lines : List Bytes) (os : List (Opt Int)) → KeepsKinds os (init_from_lines strtol lines os)
  unfolding init_from_lines
  init_from_lines-kinds [] os = refl
  init_from_lines-kinds (line ∷ lines) os =
      by_line (is_comment line) (scan_line line) (init_from_lines-kinds lines os)
        (λ os'. init_from_lines-kinds lines os')
    where
      by_option :
          (w : Bytes × Bytes) (q : Option (Opt Int))
          → find_by (by_key w.0) os ≡ q
          → ((os' : List (Opt Int)) → KeepsKinds os' (init_from_lines strtol lines os'))
          → KeepsKinds os (elim q [
            | none ↦ (unknown_opt, os)
            | some tmp ↦
                init_from_lines strtol lines
                  (set_by (by_key w.0) (parse_value strtol tmp.value w.1) os)
          ])
      by_option w none e rest = refl
      by_option w (some tmp) e rest =
          rest (set_by (by_key w.0) (parse_value strtol tmp.value w.1) os)
          ∙ parsed-kinds (by_key w.0) w.1 os tmp e

      by_line :
          (b : Bool) (o : Option (Bytes × Bytes))
          → KeepsKinds os (init_from_lines strtol lines os)
          → ((os' : List (Opt Int)) → KeepsKinds os' (init_from_lines strtol lines os'))
          → KeepsKinds os (
              if b then init_from_lines strtol lines os else elim o [
                | none ↦ init_from_lines strtol lines os
                | some (w1, w2) ↦ elim (find_by (by_key w1) os) [
                  | none ↦ (unknown_opt, os)
                  | some tmp ↦
                      init_from_lines strtol lines
                        (set_by (by_key w1) (parse_value strtol tmp.value w2) os)
                ]
              ])
      by_line true o same rest = same
      by_line false none same rest = same
      by_line false (some w) same rest = by_option w (find_by (by_key w.0) os) refl rest

  -- The cases of an option found among the arguments: it is set with what it is given, set to true, or
  -- refused.
  module _ (print : ℕ → Bytes) where
    init_from_args-kinds :
        (i : ℕ) (args : List Bytes) (os : List (Opt Int))
        → KeepsKinds os (init_from_args strtol print i args os)
    unfolding init_from_args
    init_from_args-kinds i [] os = refl
    init_from_args-kinds i (z ∷ []) os =
        by_option (is_dashed z) (find_by (by_short z) os) refl (find_by (by_short (print i)) os)
          refl
      where
        by_option :
            (b : Bool) (q : Option (Opt Int))
            → find_by (by_short z) os ≡ q
            → (r : Option (Opt Int)) → find_by (by_short (print i)) os ≡ r
            → KeepsKinds os (
                if b
                then elim q [
                  | none ↦ (unknown_opt, os)
                  | some tmp ↦
                      if takes_argument tmp
                      then (miss_arg, os)
                      else if is_boolean tmp.value
                      then (no_error, set_by (by_short z) (boolean true) os)
                      else (wrong_value, os)
                ]
                else elim r [
                  | none ↦ (unknown_opt, os)
                  | some tmp ↦
                      (no_error, set_by (by_short (print i)) (parse_value strtol tmp.value z) os)
                ])
        by_option false q e none f = refl
        by_option false q e (some tmp) f = parsed-kinds (by_short (print i)) z os tmp f
        by_option true none e r f = refl
        by_option true (some tmp) e r f = elim (Bool-cases (takes_argument tmp)) [
          | inl t ↦ rw t refl
          | inr t ↦ elim (Bool-cases (is_boolean tmp.value)) [
            | inl b ↦ rw (t, b) (set_true-kinds (by_short z) os tmp e b)
            | inr b ↦ rw (t, b) refl
          ]
        ]
    init_from_args-kinds i (z ∷ a ∷ args) os =
        by_option (is_dashed z) (find_by (by_short z) os) refl (find_by (by_short (print i)) os)
          refl (λ os'. init_from_args-kinds i args os')
          (λ j os'. init_from_args-kinds j (a ∷ args) os')
      where
        by_option :
            (b : Bool) (q : Option (Opt Int))
            → find_by (by_short z) os ≡ q
            → (r : Option (Opt Int)) → find_by (by_short (print i)) os ≡ r
            → ((os' : List (Opt Int)) → KeepsKinds os' (init_from_args strtol print i args os'))
            → ((j : ℕ) (os' : List (Opt Int))
                → KeepsKinds os' (init_from_args strtol print j (a ∷ args) os'))
            → KeepsKinds os (
                if b
                then elim q [
                  | none ↦ (unknown_opt, os)
                  | some tmp ↦
                      if takes_argument tmp
                      then if is_dashed a
                        then (miss_arg, os)
                        else init_from_args strtol print i args
                            (set_by (by_short z) (parse_value strtol tmp.value a) os)
                      else if is_boolean tmp.value
                      then init_from_args strtol print i
                          (a ∷ args)
                          (set_by (by_short z) (boolean true) os)
                      else (wrong_value, os)
                ]
                else elim r [
                  | none ↦ (unknown_opt, os)
                  | some tmp ↦
                      init_from_args strtol print
                        (suc i)
                        (a ∷ args)
                        (set_by (by_short (print i)) (parse_value strtol tmp.value z) os)
                ])
        by_option false q e none f skip rest = refl
        by_option false q e (some tmp) f skip rest =
            rest (suc i) (set_by (by_short (print i)) (parse_value strtol tmp.value z) os)
            ∙ parsed-kinds (by_short (print i)) z os tmp f
        by_option true none e r f skip rest = refl
        by_option true (some tmp) e r f skip rest = elim (Bool-cases (takes_argument tmp)) [
          | inl t ↦ elim (Bool-cases (is_dashed a)) [
            | inl d ↦ rw (t, d) refl
            | inr d ↦
                rw (t, d)
                  (skip (set_by (by_short z) (parse_value strtol tmp.value a) os)
                    ∙ parsed-kinds (by_short z) a os tmp e)
          ]
          | inr t ↦ elim (Bool-cases (is_boolean tmp.value)) [
            | inl b ↦
                rw (t, b)
                  (rest i (set_by (by_short z) (boolean true) os)
                    ∙ set_true-kinds (by_short z) os tmp e b)
            | inr b ↦ rw (t, b) refl
          ]
        ]

-- Whatever the arguments and the lines of a file, and also where they are refused, setting the options
-- from both leaves every option its names and the kind of its value, by which the accessors decide.
pub opt_init_from_file-kinds :
    {Int : Type 0} (strtol : Bytes → Int) (print : ℕ → Bytes) (args lines : List Bytes)
    (opttab : List (Opt Int))
    → kinds (opt_init_from_file strtol (some lines) (init_from_args strtol print 0 args opttab).1).1
      ≡ kinds opttab
unfolding opt_init_from_file
opt_init_from_file-kinds strtol print args lines opttab =
    init_from_lines-kinds strtol lines (init_from_args strtol print 0 args opttab).1
    ∙ init_from_args-kinds strtol print 0 args opttab
