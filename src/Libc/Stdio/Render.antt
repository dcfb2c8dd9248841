-- ===== src/Libc/Stdio/Render.antt =====
-- The format of `printf` read character by character, without fuel: kernel/src/libc/stdio.c.
use ogos.Prelude.{
  ℕ, suc, ◌+◌, ◌≤◌, ◌≡◌, ◌∙◌, refl, sym, ap, none, some, Bool, true, false, List, [], ◌∷◌, ◌==◌,
  arith, Bool-cases, inl, inr,
}
use ogos.Libc.Memory.{Memory}
use ogos.Libc.Stdio.{
  Arg, unknown, undefined, printed, convert, span, Output, count, print_counted, print, print_c,
}

-- one character that is counted
abbrev pub emit : ℕ → Output → Output
emit c none = none
emit c (some (later, written)) = some (c ∷ later, suc written)

-- `pending` if a `%` has just been read; `rejected` once a specifier was not known.
unfoldable pub render : Bool → Bool → List ℕ → List Arg → Memory → Output
render false rejected [] args buf = some ([], 0)
render true rejected [] args buf = some (b'%' ∷ [], 1)
render false rejected (c ∷ cs) args buf = elim (c == b'%') [
  | true ↦ render true rejected cs args buf
  | false ↦ emit c (render false rejected cs args buf)
]
render true rejected (c ∷ cs) args buf = elim (c == b'%') [
  | true ↦ emit c (render false rejected cs args buf)
  | false ↦ elim rejected [
    | true ↦ emit b'%' (emit c (render false true cs args buf))
    | false ↦ elim (convert c args buf) [
      | unknown ↦ emit b'%' (emit c (render false true cs args buf))
      | undefined ↦ none
      | printed text args' buf' ↦ print text (render false false cs args' buf')
    ]
  ]
]

module _ (rejected : Bool) (c : ℕ) (cs : List ℕ) (args : List Arg) (buf : Memory) where
  pub render-percent :
      (c == b'%') ≡ true
      → render false rejected (c ∷ cs) args buf ≡ render true rejected cs args buf
  unfolding render
  render-percent e =
      ap
        (λ b. elim b [
          | true ↦ render true rejected cs args buf
          | false ↦ emit c (render false rejected cs args buf)
        ])
        e

  pub render-plain :
      (c == b'%') ≡ false
      → render false rejected (c ∷ cs) args buf ≡ emit c (render false rejected cs args buf)
  unfolding render
  render-plain e =
      ap
        (λ b. elim b [
          | true ↦ render true rejected cs args buf
          | false ↦ emit c (render false rejected cs args buf)
        ])
        e

-- Printing a text and one character more.
print_counted-cons :
    (c : ℕ) (text : List ℕ) (o : Output)
    → print_counted (c ∷ text) o ≡ emit c (print_counted text o)
print_counted-cons c text none = refl
print_counted-cons c text (some (later, written)) =
    let e : suc (count text) + written ≡ suc (count text + written) = omega arith in rw e refl

print_counted-nil : (o : Output) → print_counted [] o ≡ o
print_counted-nil none = refl
print_counted-nil (some (later, written)) = let e : 0 + written ≡ written = omega arith in rw e refl

-- The characters up to the next `%` are printed as they are.
render-span :
    (rejected : Bool) (cs : List ℕ) (args : List Arg) (buf : Memory)
    → render false rejected cs args buf
      ≡ print_counted (span cs).0 (render false rejected (span cs).1 args buf)
unfolding span
render-span rejected [] args buf = sym (print_counted-nil (render false rejected [] args buf))
render-span rejected (c ∷ cs) args buf = elim (Bool-cases (c == b'%')) [
  | inl e ↦ rw e (sym (print_counted-nil (render false rejected (c ∷ cs) args buf)))
  | inr e ↦ rw e (
      render-plain rejected c cs args buf e
      ∙ ap (emit c) (render-span rejected cs args buf)
      ∙ sym (print_counted-cons c (span cs).0 (render false rejected (span cs).1 args buf)))
]

count-span : (cs : List ℕ) → count (span cs).1 ≤ count cs
unfolding span
count-span [] = omega arith
count-span (c ∷ cs) =
    let rest = count-span cs in
    elim (Bool-cases (c == b'%')) [ inl e ↦ rw e (omega arith) | inr e ↦ rw e (omega arith) ]

pub print_c-emit :
    (rejected : Bool) (c : ℕ) (cs : List ℕ) (args : List Arg) (buf : Memory)
    (loop : List ℕ → Output)
    → ((rest : List ℕ) → count rest ≤ count cs → loop rest ≡ render false rejected rest args buf)
    → print_c c cs loop ≡ emit c (render false rejected cs args buf)
unfolding print_c
print_c-emit rejected c cs args buf loop h =
    ap (print_counted (c ∷ (span cs).0)) (h (span cs).1 (count-span cs))
    ∙ print_counted-cons c (span cs).0 _
    ∙ ap (emit c) (sym (render-span rejected cs args buf))
