-- ===== src/Sys/Create/Started.antt =====
-- What `start_task` adds.
use ogos.Prelude.{ℕ, List, [], ◌∷◌}
use ogos.Sys.State.{Task}

-- the words of a new task's stack from its lowest address on, for the entry point func
abbrev pub switch_frame : ℕ → List ℕ
switch_frame func =
    0x10 ∷ 0x10 ∷ 0x10 ∷ 0x10 ∷ 0 ∷ 0 ∷ 0 ∷ 0 ∷ 0 ∷ 0 ∷ 0 ∷ 0 ∷ func ∷ 0x08 ∷ 0x202 ∷ []
