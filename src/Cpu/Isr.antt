-- ===== src/Cpu/Isr.antt =====
-- Exceptions and system calls: kernel/src/cpu/isr.c, kernel/src/sys/syscall.c. Handlers are
-- addresses, and what one does is an argument.
pub mod Dispatch
use ogos.Prelude.{ℕ, Bool, true, false, List, [], ◌∷◌, ltb, ◌==◌, if◌then◌else◌}

pub data Note : Type 0 where
  unhandled : ℕ → Note
  registered : ℕ → Note
  unknown_syscall : ℕ → Note

-- `isr_handlers`, `syscall_handlers` and the messages printed, the last one first.
pub record Isr : Type 0 where
  pub isr_handlers : ℕ → ℕ
  pub syscall_handlers : ℕ → ℕ
  pub notes : List Note

-- `aborted` is the end of the kernel in `abort`, or a failed assertion; `outside` an access outside
-- an array.
pub data Handled : Type 0 where
  done : Isr → Handled
  aborted : Isr → Handled
  outside : Handled

-- A read of `exception_msgs`, which has 32 messages.
pub isr_register_handler : ℕ → ℕ → Isr → Handled
isr_register_handler num handler m =
    if ltb num 256
    then (if m.isr_handlers num == 0
        then done (record m { isr_handlers = λ n. if num == n then handler else m.isr_handlers n })
        else if ltb num 32
        then done (record m { notes = registered num ∷ m.notes })
        else outside)
    else aborted m

-- The call of a handler gets the vector and eax of the interrupted code.
pub isr_handler : (ℕ → ℕ → ℕ → Isr → Handled) → ℕ → ℕ → Isr → Handled
isr_handler handler_run int_no eax m =
    if ltb int_no 256
    then (if m.isr_handlers int_no == 0
        then aborted (record m { notes = unhandled int_no ∷ m.notes })
        else handler_run (m.isr_handlers int_no) int_no eax m)
    else aborted m

pub syscall_handler : (ℕ → ℕ → Isr → Handled) → ℕ → Isr → Handled
syscall_handler sys_run eax m =
    if ltb eax 256
    then (if m.syscall_handlers eax == 0
        then done (record m { notes = unknown_syscall eax ∷ m.notes })
        else sys_run (m.syscall_handlers eax) eax m)
    else outside

-- `address` is that of `syscall_handler`.
pub init_syscall : ℕ → Isr → Handled
init_syscall address m = isr_register_handler 48 address m
