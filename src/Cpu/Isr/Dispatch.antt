-- ===== src/Cpu/Isr/Dispatch.antt =====
-- Which handler an exception or a system call reaches.
use ogos.Prelude.{ℕ, ◌<◌, ◌≤◌, ◌≡◌, ◌≢◌, refl, true, false, ◌∷◌, arith, ltb, ◌==◌, if◌then◌else◌}
use ogos.Cpu.Isr.{
  Isr, Handled, Note, done, outside, isr_register_handler, isr_handler, syscall_handler,
  init_syscall,
}

-- A handler that is registered for a free vector runs when its exception comes; every other vector
-- keeps its handler; and registering once more for the vector, where it is an exception's, keeps
-- the first handler and only prints.
pub isr_register_handler-first :
    (num h h' eax n : ℕ) (handler_run : ℕ → ℕ → ℕ → Isr → Handled) (m : Isr)
    → num < 32
    → h ≢ 0
    → m.isr_handlers num ≡ 0
    → num ≢ n
    → (m' : Isr) × (isr_register_handler num h m ≡ done m')
      × (isr_handler handler_run num eax m' ≡ handler_run h num eax m')
      × (m'.isr_handlers n ≡ m.isr_handlers n)
      × (isr_register_handler num h' m'
          ≡ done (record m' { notes = Note.registered num ∷ m'.notes }))
unfolding isr_register_handler isr_handler
isr_register_handler-first num h h' eax n handler_run m bound nh free other =
    let inside : ltb num 256 ≡ true = ground arith in
    let message : ltb num 32 ≡ true = ground arith in
    let empty : (m.isr_handlers num == 0) ≡ true = ground arith in
    let same : (num == num) ≡ true = ground arith in
    let apart : (num == n) ≡ false = ground arith in
    let set : (h == 0) ≡ false = ground arith in
    (
      record m { isr_handlers = λ n. if num == n then h else m.isr_handlers n },
      rw (inside, empty) refl,
      rw (inside, same, set) refl,
      rw apart refl,
      rw (inside, same, set, message) refl,
    )

-- A second handler for a vector that has one and is no exception's makes the code read a message
-- outside the table of messages.
pub isr_register_handler-outside :
    (num h : ℕ) (m : Isr)
    → 32 ≤ num
    → num < 256
    → m.isr_handlers num ≢ 0
    → isr_register_handler num h m ≡ outside
unfolding isr_register_handler
isr_register_handler-outside num h m low high used = ground arith

-- Once system calls are set up, interrupt 48 with the number of a call below 256 in eax runs the
-- call's handler, or prints that there is none.
pub init_syscall-calls :
    (address eax : ℕ) (sys_run : ℕ → ℕ → Isr → Handled) (other_run : ℕ → ℕ → ℕ → Isr → Handled)
    (m : Isr)
    → address ≢ 0
    → m.isr_handlers 48 ≡ 0
    → eax < 256
    → (m' : Isr) × (init_syscall address m ≡ done m')
      × (isr_handler
            (λ h v a m. if h == address then syscall_handler sys_run a m else other_run h v a m)
            48
            eax
            m'
          ≡ (if m.syscall_handlers eax == 0
              then done (record m' { notes = Note.unknown_syscall eax ∷ m'.notes })
              else sys_run (m.syscall_handlers eax) eax m'))
unfolding init_syscall isr_register_handler isr_handler syscall_handler
init_syscall-calls address eax sys_run other_run m na free bound =
    let empty : (m.isr_handlers 48 == 0) ≡ true = ground arith in
    let set : (address == 0) ≡ false = ground arith in
    let same : (address == address) ≡ true = ground arith in
    let inside : ltb eax 256 ≡ true = ground arith in
    (
      record m { isr_handlers = λ n. if 48 == n then address else m.isr_handlers n },
      rw empty refl,
      rw (set, same, inside) refl,
    )
