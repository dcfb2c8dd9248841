-- ===== src/Libc/Ctype.antt =====
-- Character classes: kernel/src/libc/ctype.c. An `int` is a ℤ, and a test's 0 or 1 is a Bool.
pub mod Classes
use ogos.Prelude.{ℕ, Bool, not, ◌&&◌, ◌||◌, if◌then◌else◌}
use ogos.Prelude.Int.{ℤ, pos, ◌+ℤ◌, ◌-ℤ◌, ltb_ℤ, eqb_ℤ}

-- `c >= lo && c <= hi`
abbrev pub within : ℕ → ℕ → ℤ → Bool
within lo hi c = not (ltb_ℤ c (pos lo)) && not (ltb_ℤ (pos hi) c)

unfoldable pub isalpha : ℤ → Bool
isalpha c = within b'A' b'Z' c || within b'a' b'z' c

unfoldable pub isdigit : ℤ → Bool
isdigit c = within b'0' b'9' c

pub isalnum : ℤ → Bool
unfolding isalpha isdigit
isalnum c = isalpha c && isdigit c

pub isblank : ℤ → Bool
isblank c = eqb_ℤ c (pos 32) || eqb_ℤ c (pos 9)

pub iscntrl : ℤ → Bool
iscntrl c = within 0 31 c

pub isgraph : ℤ → Bool
isgraph c = within 33 126 c

pub islower : ℤ → Bool
islower c = within b'a' b'z' c

unfoldable pub isprint : ℤ → Bool
isprint c = within 32 126 c

pub ispunct : ℤ → Bool
ispunct c = within 33 47 c || within 58 64 c || within 91 96 c || within 123 126 c

unfoldable pub isspace : ℤ → Bool
isspace c = eqb_ℤ c (pos 32) || within 9 13 c

pub isupper : ℤ → Bool
isupper c = within b'A' b'Z' c

pub isxdigit : ℤ → Bool
unfolding isdigit
isxdigit c = isdigit c || within b'a' b'f' c || within b'A' b'F' c

pub tolower : ℤ → ℤ
unfolding isalpha
tolower c = if not (isalpha c) then c else c +ℤ pos 32

pub toupper : ℤ → ℤ
unfolding isalpha
toupper c = if not (isalpha c) then c else c -ℤ pos 32
