-- ===== src/Libc/Stdlib/Atoi.antt =====
-- `atoi` reads back what `itoa` printed.
use ogos.Prelude.{ℕ, suc, ◌+◌, ◌*◌, ◌<◌, ◌≡◌, refl, some, true, false, arith}
use ogos.Prelude.Int.{ℤ, pos, sub_ℕ, ◌-ℤ◌, ◌*ℤ◌}
use ogos.Libc.Ctype.{isspace, isdigit}
use ogos.Libc.Memory.{Memory}
use ogos.Libc.Stdlib.{char, skip_space}

abbrev pub neg : ℕ → ℤ
neg x = sub_ℕ 0 x

pub step_value :
    (q d : ℕ) → d < 10 → pos 10 *ℤ neg q -ℤ (char (b'0' + d) -ℤ pos b'0') ≡ neg (q * 10 + d)
unfolding ◌*ℤ◌ ◌-ℤ◌
step_value q d h = ground arith

pub isdigit_digit : (d : ℕ) → d < 10 → isdigit (char (b'0' + d)) ≡ true
unfolding isdigit
isdigit_digit d h = ground arith

pub not_digit : isdigit (char 0) ≡ false
unfolding isdigit
not_digit = refl

pub skip_none :
    (k s : ℕ) (m : Memory) → isspace (char (m s)) ≡ false → skip_space (suc k) s m ≡ some s
unfolding skip_space
skip_none k s m h = rw h
