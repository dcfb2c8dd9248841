-- ===== src/Devices/Console/Sequences.antt =====
-- Whole sequences of characters that start with an escape.
use ogos.Prelude.{
  ℕ, ◌+◌, ◌%◌, ◌^◌, ◌<◌, ◌≤◌, ◌≡◌, refl, ap, ap₂, ◌∙◌, Bool, true, false, ◌&&◌, ◌||◌, List, [], ◌∷◌,
  ◌++◌, none, some, arith, ltb, leb, ◌==◌, if◌then◌else◌, Bool-cases, inl, inr, length, get_or,
}
use ogos.Libc.Ctype.{isdigit, isalpha}
use ogos.Libc.Stdlib.{char}
use ogos.Devices.Tty.{normal, bracket, params, Ansi, Tty, at_least, write}
use ogos.Devices.Ansi.{
  tty_interpret_ansi, interpret, in_params, set_ansi, add_digit, command, reset, store_param,
}
use ogos.Devices.Ansi.Params.{all_digits, number, put_all, stored, typed, store_param_lem}
use ogos.Devices.Ansi.Args.{all_stored, all_stored-args, from_none}
use ogos.Devices.Console.{control, wrap, scroll, tty_putchar, tty_write}

-- the cursor stands inside the screen
abbrev pub inside : Tty → Bool
inside t = ltb t.row 25 && ltb t.column 80

-- the parameters with semicolons between them and the last character behind
abbrev pub joined : List (List ℕ) → ℕ → List ℕ
joined [] c = c ∷ []
joined (p ∷ []) c = p ++ c ∷ []
joined (p ∷ q ∷ ps) c = p ++ b';' ∷ joined (q ∷ ps) c

-- each one has digits only, and fewer than 32 of them
abbrev pub all_short : List (List ℕ) → Bool
all_short [] = true
all_short (p ∷ ps) = all_digits p && ltb (length p) 32 && all_short ps

-- the end of a sequence: its command, and no sequence open
abbrev pub finished : ℕ → Tty → Tty
finished c t = let t1 = command c t in set_ansi (reset t1.ansi) t1

plain_control : (c : ℕ) (t : Tty) → 27 ≤ c → control c t ≡ t
unfolding control
plain_control c t h = ground arith

no_wrap : (t : Tty) → inside t ≡ true → scroll (wrap t) ≡ t
unfolding wrap scroll
no_wrap t h =
    let column : at_least 80 t.column ≡ false = ground arith in
    let row : at_least 25 t.row ≡ false = ground arith in rw (column, row) refl

-- A character that a sequence takes does nothing else.
taken :
    (c : ℕ) (t t' : Tty)
    → 27 ≤ c
    → inside t ≡ true
    → tty_interpret_ansi c t ≡ some (true, t')
    → tty_putchar c t ≡ some t'
unfolding tty_putchar
taken c t t' h on run = rw (plain_control c t h, no_wrap t on, run) refl

-- In an open sequence a character is one of its parameters or its end.
open_sequence :
    (c : ℕ) (t : Tty) → t.ansi.state ≡ params → tty_interpret_ansi c t ≡ interpret params c t
unfolding tty_interpret_ansi
open_sequence c t state = ap (λ s. interpret s c t) state

isdigit_range : (c : ℕ) → isdigit (char c) ≡ true → (48 ≤ c) × (c < 58)
unfolding isdigit
isdigit_range c h = ground arith

isalpha_range : (c : ℕ) → isalpha (char c) ≡ true → (65 ≤ c) × (isdigit (char c) ≡ false)
unfolding isalpha isdigit
isalpha_range c h = ground arith

digit_taken :
    (d : ℕ) (t : Tty)
    → t.ansi.state ≡ params
    → isdigit (char d) ≡ true
    → t.ansi.current_index < 32
    → inside t ≡ true
    → tty_putchar d t
      ≡ some (
          set_ansi
            (record t.ansi {
              buf = put_all (d ∷ []) t.ansi.current_index t.ansi.buf;
              current_index = t.ansi.current_index + 1;
            })
            t)
unfolding interpret in_params add_digit
digit_taken d t state digit room on =
    let (low, high) = isdigit_range d digit in
    let not_end : (d == b';') ≡ false = ground arith in
    let fits : leb 32 t.ansi.current_index ≡ false = ground arith in
    taken d t _ (omega arith) on (open_sequence d t state ∙ rw (not_end, digit, fits) refl)

-- the digits of a parameter go into the buffer
digits_taken :
    (p rest : List ℕ) (k : ℕ) (t : Tty)
    → t.ansi.state ≡ params
    → all_digits p ≡ true
    → t.ansi.current_index ≡ k
    → k + length p ≤ 32
    → inside t ≡ true
    → tty_write (p ++ rest) t ≡ tty_write rest (set_ansi (typed p k t.ansi) t)
unfolding tty_write
digits_taken [] rest k t state digits at room on =
    ap (λ n. tty_write rest (set_ansi (record t.ansi { current_index = n }) t)) (at ∙ omega arith)
digits_taken (d ∷ ds) rest k t state digits at room on =
    let a = t.ansi in
    let digit : isdigit (char d) ≡ true = ground arith in
    let a1 = record a {
      buf = put_all (d ∷ []) a.current_index a.buf;
      current_index = a.current_index + 1;
    } in
    let run = digit_taken d t state digit (omega arith) on in
    let more =
      digits_taken ds rest (k + 1) (set_ansi a1 t) state (ground arith) (omega arith) (omega arith)
        on in
    rw run (
      more
      ∙ ap₂
          (λ i n. tty_write rest (
            set_ansi (record a { buf = put_all ds (k + 1) (write a.buf i d); current_index = n })
              t))
          at (omega arith))

-- a semicolon ends a parameter
semicolon_taken :
    (p : List ℕ) (t : Tty)
    → t.ansi.state ≡ params
    → all_digits p ≡ true
    → length p < 32
    → t.ansi.current_arg < 32
    → inside t ≡ true
    → tty_putchar b';' (set_ansi (typed p 0 t.ansi) t)
      ≡ some (set_ansi (record (stored p t.ansi) { current_index = 0 }) t)
unfolding interpret in_params
semicolon_taken p t state digits short few on =
    taken b';' (set_ansi (typed p 0 t.ansi) t) _ (omega arith) on (
      open_sequence b';' (set_ansi (typed p 0 t.ansi) t) state
      ∙ rw (store_param_lem p t.ansi digits short few) refl)

-- a letter ends the last one and the sequence
letter_taken :
    (c : ℕ) (p : List ℕ) (t : Tty)
    → t.ansi.state ≡ params
    → isalpha (char c) ≡ true
    → all_digits p ≡ true
    → length p < 32
    → t.ansi.current_arg < 32
    → inside t ≡ true
    → tty_putchar c (set_ansi (typed p 0 t.ansi) t)
      ≡ some (finished c (set_ansi (stored p t.ansi) t))
unfolding interpret in_params
letter_taken c p t state letter digits short few on =
    let (low, not_digit) = isalpha_range c letter in
    let not_end : (c == b';') ≡ false = ground arith in
    taken c (set_ansi (typed p 0 t.ansi) t) _ (omega arith) on (
      open_sequence c (set_ansi (typed p 0 t.ansi) t) state
      ∙ rw (not_end, not_digit, letter, store_param_lem p t.ansi digits short few) refl)

params_taken :
    (ps : List (List ℕ)) (p : List ℕ) (c : ℕ) (t : Tty)
    → t.ansi.state ≡ params
    → t.ansi.current_index ≡ 0
    → isalpha (char c) ≡ true
    → all_short (p ∷ ps) ≡ true
    → t.ansi.current_arg + length (p ∷ ps) ≤ 32
    → inside t ≡ true
    → tty_write (joined (p ∷ ps) c) t ≡ some (finished c (set_ansi (all_stored (p ∷ ps) t.ansi) t))
unfolding tty_write
params_taken [] p c t state at letter short few on =
    digits_taken p (c ∷ []) 0 t state (ground arith) at (ground arith) on
    ∙ rw (letter_taken c p t state letter (ground arith) (ground arith) (omega arith) on) refl
params_taken (q ∷ qs) p c t state at letter short few on =
    digits_taken p (b';' ∷ joined (q ∷ qs) c) 0 t state (ground arith) at (ground arith) on
    ∙ rw (semicolon_taken p t state (ground arith) (ground arith) (omega arith) on) (
        params_taken qs q c (set_ansi (record (stored p t.ansi) { current_index = 0 }) t) state refl
          letter (ground arith) (omega arith) on)

opening_taken :
    (rest : List ℕ) (t : Tty)
    → t.ansi.state ≡ normal
    → inside t ≡ true
    → tty_write (0x1B ∷ b'[' ∷ rest) t
      ≡ tty_write rest (set_ansi (record t.ansi { state = params }) t)
unfolding tty_write tty_interpret_ansi interpret
opening_taken rest t state on =
    let t1 = set_ansi (record t.ansi { state = bracket }) t in
    let run = taken 0x1B t t1 (omega arith) on (ap (λ s. interpret s 0x1B t) state) in
    let run1 =
      taken b'[' t1 (set_ansi (record t.ansi { state = params }) t) (omega arith) on refl in
    rw (run, run1) refl

-- A parameter of 32 digits has no room for its end.
end_overruns :
    (c : ℕ) (t : Tty)
    → t.ansi.state ≡ params
    → ((c == b';') || isalpha (char c)) ≡ true
    → 32 ≤ t.ansi.current_index
    → inside t ≡ true
    → tty_putchar c t ≡ none
unfolding tty_putchar interpret in_params store_param
end_overruns c t state ends full on =
    let no_room : leb 32 t.ansi.current_index ≡ true = ground arith in
    elim (Bool-cases (c == b';')) [
      | inl end ↦
          let low : 27 ≤ c = ground arith in
          rw (plain_control c t low, no_wrap t on, open_sequence c t state, end, no_room) refl
      | inr not_end ↦
          let (low, not_digit) = isalpha_range c (ground arith) in
          let letter : isalpha (char c) ≡ true = ground arith in
          rw
            (
              plain_control c t (omega arith),
              no_wrap t on,
              open_sequence c t state,
              not_end,
              not_digit,
              letter,
              no_room,
            )
            refl
    ]

-- With the cursor inside the screen and no sequence open, an escape, a bracket, at most 32 parameters
-- of at most 31 digits each with semicolons between them, and a letter are taken whole: what is left
-- is the letter's command, run on variables that hold the values of the parameters as words of 32 bits
-- and their number, and what earlier sequences left behind them; then no sequence is open.
pub tty_write-sequence :
    (p : List ℕ) (ps : List (List ℕ)) (c : ℕ) (t : Tty)
    → t.ansi.state ≡ normal
    → t.ansi.current_arg ≡ 0
    → t.ansi.current_index ≡ 0
    → isalpha (char c) ≡ true
    → all_short (p ∷ ps) ≡ true
    → length (p ∷ ps) ≤ 32
    → inside t ≡ true
    → (a : Ansi) × (tty_write (0x1B ∷ b'[' ∷ joined (p ∷ ps) c) t
        ≡ some (finished c (set_ansi a t)))
      × (a.current_arg ≡ length (p ∷ ps))
      × ((i : ℕ)
          → a.args i ≡ (
              if ltb i (length (p ∷ ps))
              then number (get_or (p ∷ ps) i []) % 2 ^ 32
              else t.ansi.args i))
tty_write-sequence p ps c t state none_yet at letter short few on =
    let a0 : Ansi = record t.ansi { state = params } in
    (
      all_stored (p ∷ ps) a0,
      opening_taken (joined (p ∷ ps) c) t state on
          ∙ params_taken ps p c (set_ansi a0 t) refl at letter short (omega arith) on,
      (all_stored-args ps p a0 0 0 none_yet).1 ∙ omega arith,
      λ i. (all_stored-args ps p a0 0 i none_yet).0 ∙ from_none (p ∷ ps) (t.ansi.args i) i,
    )

-- With the cursor inside the screen and no sequence open, a sequence that ends in H puts the cursor on
-- the row that its first parameter says, and on the column of its second one; with one parameter, on
-- the column that an earlier sequence had as its second parameter. The parameters are at most 32, of at
-- most 31 digits each.
pub tty_write-moves :
    (p : List ℕ) (ps : List (List ℕ)) (t : Tty)
    → t.ansi.state ≡ normal
    → t.ansi.current_arg ≡ 0
    → t.ansi.current_index ≡ 0
    → all_short (p ∷ ps) ≡ true
    → length (p ∷ ps) ≤ 32
    → inside t ≡ true
    → (t' : Tty) × (tty_write (0x1B ∷ b'[' ∷ joined (p ∷ ps) b'H') t ≡ some t')
      × (t'.row ≡ number p % 2 ^ 32)
      × (t'.column ≡ (if length ps == 0 then t.ansi.args 1 else number (get_or ps 0 []) % 2 ^ 32))
      × (t'.buffer ≡ t.buffer)
unfolding command isalpha
tty_write-moves p ps t state none_yet at short few on =
    let (a, run, count, args) =
      tty_write-sequence p ps b'H' t state none_yet at refl short few on in
    (_, run, args 0 ∙ ground arith, args 1 ∙ ground arith, refl)

-- With the cursor inside the screen and no sequence open, a sequence whose first parameter has 32 digits
-- has no result: the end of that parameter, a semicolon or a letter, is written behind the buffer.
pub tty_write-overrun :
    (p rest : List ℕ) (c : ℕ) (t : Tty)
    → t.ansi.state ≡ normal
    → t.ansi.current_index ≡ 0
    → ((c == b';') || isalpha (char c)) ≡ true
    → all_digits p ≡ true
    → length p ≡ 32
    → inside t ≡ true
    → tty_write (0x1B ∷ b'[' ∷ p ++ c ∷ rest) t ≡ none
unfolding tty_write
tty_write-overrun p rest c t state at ends digits long on =
    let t1 = set_ansi (record t.ansi { state = params }) t in
    opening_taken (p ++ c ∷ rest) t state on
    ∙ digits_taken p (c ∷ rest) 0 t1 refl digits at (omega arith) on
    ∙ rw (end_overruns c (set_ansi (typed p 0 t1.ansi) t1) refl ends (omega arith) on) refl
