-- ===== src/Libc/Stdio/Printf.antt =====
-- `printf` against the reading of its format: kernel/src/libc/stdio.c.
use ogos.Prelude.{
  ℕ, zero, suc, ◌+◌, ◌<◌, ◌≡◌, ◌∙◌, refl, sym, ap, none, some, Bool, true, false, List, [], ◌∷◌,
  ◌==◌, arith, Bool-cases, inl, inr,
}
use ogos.Libc.Memory.{Memory}
use ogos.Libc.Stdio.{
  Arg, Converted, unknown, undefined, printed, convert, Output, count, print, print_c, printf_loop,
  printf,
}
use ogos.Libc.Stdio.Render.{emit, render, render-percent, render-plain, print_c-emit}

-- The loop on fuel above the length of the format.
Right : ℕ → Type 0
Right k =
    (rejected : Bool) (format : List ℕ) (args : List Arg) (buf : Memory)
    → count format < k
    → printf_loop k rejected format args buf ≡ render false rejected format args buf

empty_lem :
    (k : ℕ) (rejected : Bool) (args : List Arg) (buf : Memory)
    → printf_loop (suc k) rejected [] args buf ≡ render false rejected [] args buf
unfolding printf_loop render
empty_lem k rejected args buf = refl

module _ (k : ℕ) (ih : Right k) where
  -- The last character, which may be a `%`.
  last_lem :
      (rejected : Bool) (c : ℕ) (args : List Arg) (buf : Memory)
      → 1 < suc k
      → printf_loop (suc k) rejected (c ∷ []) args buf ≡ render false rejected (c ∷ []) args buf
  unfolding printf_loop render Right
  last_lem rejected c args buf h = elim (Bool-cases (c == b'%')) [
    | inl e ↦
        let d : c ≡ b'%' = ground arith in
        rw e (
          print_c-emit true c [] args buf _ (λ rest p. ih true rest args buf (omega arith))
          ∙ ap (λ x. some (x ∷ [], 1)) d
          ∙ sym (render-percent rejected c [] args buf e))
    | inr e ↦ rw e (
        print_c-emit rejected c [] args buf _ (λ rest p. ih rejected rest args buf (omega arith))
        ∙ sym (render-plain rejected c [] args buf e))
  ]

  module _ (d : ℕ) (ds : List ℕ) (args : List Arg) (buf : Memory) (h : count ds + 2 < suc k) where
    -- A `%` that is printed because the specifier behind it is not known, or one before it was not.
    raw : Output
    raw = print_c b'%' (d ∷ ds) (λ rest. printf_loop k true rest args buf)

    raw_lem : (d == b'%') ≡ false → raw ≡ emit b'%' (emit d (render false true ds args buf))
    unfolding raw Right
    raw_lem e =
        print_c-emit true b'%' (d ∷ ds) args buf _ (λ rest p. ih true rest args buf (omega arith))
        ∙ ap (emit b'%') (render-plain true d ds args buf e)

    convert_lem :
        (o : Converted)
        → (d == b'%') ≡ false
        → elim o [
          | unknown ↦ raw
          | undefined ↦ none
          | printed text args' buf' ↦ print text (printf_loop k false ds args' buf')
        ]
          ≡ elim o [
            | unknown ↦ emit b'%' (emit d (render false true ds args buf))
            | undefined ↦ none
            | printed text args' buf' ↦ print text (render false false ds args' buf')
          ]
    unfolding Right
    convert_lem unknown e = raw_lem e
    convert_lem undefined e = refl
    convert_lem (printed text args' buf') e = ap (print text) (ih false ds args' buf' (omega arith))

    plain_lem :
        (c : ℕ) (rejected : Bool)
        → (c == b'%') ≡ false
        → printf_loop (suc k) rejected (c ∷ d ∷ ds) args buf
          ≡ print_c c (d ∷ ds) (λ rest. printf_loop k rejected rest args buf)
    unfolding printf_loop
    plain_lem c rejected e = rw (e, printf_loop) refl

    -- What the loop and the reading do with the character behind a `%`.
    abbrev looped : Bool → Bool → Output
    looped true rejected = print_c d ds (λ rest. printf_loop k rejected rest args buf)
    looped false true = raw
    looped false false = elim (convert d args buf) [
      | unknown ↦ raw
      | undefined ↦ none
      | printed text args' buf' ↦ print text (printf_loop k false ds args' buf')
    ]

    abbrev read : Bool → Bool → Output
    read true rejected = emit d (render false rejected ds args buf)
    read false true = emit b'%' (emit d (render false true ds args buf))
    read false false = elim (convert d args buf) [
      | unknown ↦ emit b'%' (emit d (render false true ds args buf))
      | undefined ↦ none
      | printed text args' buf' ↦ print text (render false false ds args' buf')
    ]

    looped-read : (b rejected : Bool) → (d == b'%') ≡ b → looped b rejected ≡ read b rejected
    unfolding Right
    looped-read true rejected e =
        print_c-emit rejected d ds args buf _ (λ rest p. ih rejected rest args buf (omega arith))
    looped-read false true e = raw_lem e
    looped-read false false e = convert_lem (convert d args buf) e

    specifier_lem :
        (rejected : Bool)
        → printf_loop (suc k) rejected (b'%' ∷ d ∷ ds) args buf
          ≡ render true rejected (d ∷ ds) args buf
    unfolding printf_loop render raw
    specifier_lem true = elim (Bool-cases (d == b'%')) [
      | inl e ↦ rw (e, printf_loop, render) (looped-read true true e)
      | inr e ↦ rw (e, printf_loop, render) (looped-read false true e)
    ]
    specifier_lem false = elim (Bool-cases (d == b'%')) [
      | inl e ↦ rw (e, printf_loop, render) (looped-read true false e)
      | inr e ↦ rw (e, printf_loop, render) (looped-read false false e)
    ]

    two_lem :
        (c : ℕ) (rejected : Bool)
        → printf_loop (suc k) rejected (c ∷ d ∷ ds) args buf
          ≡ render false rejected (c ∷ d ∷ ds) args buf
    unfolding Right
    two_lem c rejected = elim (Bool-cases (c == b'%')) [
      | inl e ↦
          let p : c ≡ b'%' = ground arith in
          rw p (specifier_lem rejected ∙ sym (render-percent rejected b'%' (d ∷ ds) args buf refl))
      | inr e ↦
          plain_lem c rejected e
          ∙ print_c-emit rejected c (d ∷ ds) args buf _
              (λ rest p. ih rejected rest args buf (omega arith))
          ∙ sym (render-plain rejected c (d ∷ ds) args buf e)
    ]

right : (k : ℕ) → Right k
unfolding Right
right zero rejected format args buf h = absurd (omega arith)
right (suc k) rejected [] args buf h = empty_lem k rejected args buf
right (suc k) rejected (c ∷ []) args buf h = last_lem k (right k) rejected c args buf h
right (suc k) rejected (c ∷ d ∷ ds) args buf h =
    two_lem k (right k) d ds args buf (omega arith) c rejected

-- `printf` is defined exactly where the reading of the format character by character is, and prints and
-- returns the same. Every character that is not part of a specifier is printed and counted, and `%%` is one `%`.
-- A known specifier prints its argument, which is not counted. From the first unknown specifier on, every
-- specifier is printed as it stands and takes no argument.
pub printf-render :
    (format : List ℕ) (args : List Arg)
    → printf format args ≡ render false false format args (λ a. 0)
unfolding printf Right
printf-render format args = right (suc (count format)) false format args (λ a. 0) (omega arith)
