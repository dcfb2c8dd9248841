-- ===== src/Devices/Ansi/Args.antt =====
-- The parameters of a sequence, as the variables hold them.
use ogos.Prelude.{
  ℕ, suc, ◌+◌, ◌-◌, ◌%◌, ◌^◌, ◌≡◌, refl, ◌∙◌, true, false, ◌&&◌, List, [], ◌∷◌, arith, ltb, leb,
  ◌==◌, if◌then◌else◌, Bool-cases, inl, inr, length, get_or,
}
use ogos.Devices.Tty.{Ansi}
use ogos.Devices.Ansi.Params.{number, stored}

-- the variables behind the parameters
abbrev pub all_stored : List (List ℕ) → Ansi → Ansi
all_stored [] a = a
all_stored (p ∷ []) a = stored p a
all_stored (p ∷ q ∷ ps) a = all_stored (q ∷ ps) (record (stored p a) { current_index = 0 })

-- Parameters behind n others, as the variables hold them.
args_at :
    (n i v v1 : ℕ) (p : List ℕ) (ps : List (List ℕ))
    → v1 ≡ (if n == i then number p % 2 ^ 32 else v)
    → (if leb (n + 1) i && ltb i (n + 1 + length ps)
        then number (get_or ps (i - (n + 1)) []) % 2 ^ 32
        else v1)
      ≡ (if leb n i && ltb i (n + length (p ∷ ps))
          then number (get_or (p ∷ ps) (i - n) []) % 2 ^ 32
          else v)
args_at n i v v1 p ps first = elim (Bool-cases (ltb n i)) [
  | inl behind ↦ let next : i - n ≡ suc (i - (n + 1)) = ground arith in rw next (ground arith)
  | inr not_behind ↦ elim (Bool-cases (n == i)) [
    | inl here ↦ let none_before : i - n ≡ 0 = ground arith in rw none_before (ground arith)
    | inr before ↦ ground arith
  ]
]

pub all_stored-args :
    (ps : List (List ℕ)) (p : List ℕ) (a : Ansi) (n i : ℕ)
    → a.current_arg ≡ n
    → ((all_stored (p ∷ ps) a).args i ≡ (
        if leb n i && ltb i (n + length (p ∷ ps))
        then number (get_or (p ∷ ps) (i - n) []) % 2 ^ 32
        else a.args i))
      × ((all_stored (p ∷ ps) a).current_arg ≡ n + length (p ∷ ps))
all_stored-args [] p a n i count =
    let v1 = (stored p a).args i in
    let written : v1 ≡ (if n == i then number p % 2 ^ 32 else a.args i) = rw count refl in
    let at = args_at n i (a.args i) v1 p [] written in
    let no_more : (leb (n + 1) i && ltb i (n + 1 + 0)) ≡ false = ground arith in
    (rw no_more at at, omega arith)
all_stored-args (q ∷ qs) p a n i count =
    let a1 : Ansi = record (stored p a) { current_index = 0 } in
    let written : a1.args i ≡ (if n == i then number p % 2 ^ 32 else a.args i) = rw count refl in
    let (later, all) = all_stored-args qs q a1 (n + 1) i (omega arith) in
    (later ∙ args_at n i (a.args i) (a1.args i) p (q ∷ qs) written, omega arith)

pub from_none :
    (ps : List (List ℕ)) (v i : ℕ)
    → (if leb 0 i && ltb i (0 + length ps) then number (get_or ps (i - 0) []) % 2 ^ 32 else v)
      ≡ (if ltb i (length ps) then number (get_or ps i []) % 2 ^ 32 else v)
from_none ps v i =
    let low : leb 0 i ≡ true = ground arith in
    let same : i - 0 ≡ i = omega arith in
    let all : 0 + length ps ≡ length ps = omega arith in rw (low, same, all) refl
