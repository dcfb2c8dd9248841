-- ===== src/Libc/Stdio/Gets.antt =====
-- The editing of a line by `gets`: kernel/src/libc/stdio.c.
use ogos.Prelude.{
  ℕ, suc, ◌+◌, ◌<◌, ◌≤◌, ◌≡◌, ◌∙◌, refl, Option, none, some, false, List, [], ◌∷◌, ◌==◌, arith,
  Bool-cases, inl, inr, if◌then◌else◌,
}
use ogos.Libc.Memory.{Memory, write}
use ogos.Libc.Stdio.{count, echo, gets_loop, gets}

-- a line without its last character
abbrev pub rubbed : List ℕ → List ℕ
rubbed [] = []
rubbed (c ∷ cs) = cs

-- The line that the keys up to a newline make of one, the last character first; `none` if no newline comes.
unfoldable pub typed : List ℕ → List ℕ → Option (List ℕ)
typed line [] = none
typed line (c ∷ cs) =
    let longer = typed (c ∷ line) cs in
    let shorter = typed (rubbed line) cs in
    if c == 10 then some line else if c == 8 then shorter else longer

-- A line stands in memory from str on.
pub Holds : List ℕ → ℕ → Memory → Type 0
Holds [] str m = Unit
Holds (c ∷ cs) str m = (m (str + count cs) ≡ c) × Holds cs str m

-- What `gets` leaves: the line with a zero byte behind it, and the memory before it as it was.
pub record Edited (line : List ℕ) (str : ℕ) (m m' : Memory) : Type 0 where
  pub held : Holds line str m'
  pub stop : m' (str + count line) ≡ 0
  pub before : (a : ℕ) → a < str → m' a ≡ m a

Holds-write :
    (line : List ℕ) (str a v : ℕ) (m : Memory)
    → str + count line ≤ a
    → Holds line str m
    → Holds line str (write m a v)
unfolding Holds
Holds-write [] str a v m h p = p
Holds-write (c ∷ cs) str a v m h (e, p) =
    let other : (a == str + count cs) ≡ false = ground arith in
    (rw other e, Holds-write cs str a v m (omega arith) p)

Holds-rubbed : (line : List ℕ) (str : ℕ) (m : Memory) → Holds line str m → Holds (rubbed line) str m
unfolding Holds
Holds-rubbed [] str m h = h
Holds-rubbed (c ∷ cs) str m h = h.1

-- The output of the loop against the line that is typed: both are missing, or the line is in memory.
pub Agrees : ℕ → Memory → Option (Memory × List ℕ) → Option (List ℕ) → Type 0
Agrees str m none none = Unit
Agrees str m none (some line) = ⊥
Agrees str m (some out) none = ⊥
Agrees str m (some out) (some line) = Edited line str m out.0

Agrees-echo :
    (c str : ℕ) (m : Memory) (o : Option (Memory × List ℕ)) (l : Option (List ℕ))
    → Agrees str m o l
    → Agrees str m (echo c o) l
unfolding Agrees
Agrees-echo c str m none none h = tt
Agrees-echo c str m none (some line) h = h
Agrees-echo c str m (some (m', e)) none h = h
Agrees-echo c str m (some (m', e)) (some line) h = h

-- A write at or behind the start of the buffer first.
Agrees-write :
    (str a v : ℕ) (m : Memory) (o : Option (Memory × List ℕ)) (l : Option (List ℕ))
    → str ≤ a
    → Agrees str (write m a v) o l
    → Agrees str m o l
unfolding Agrees
Agrees-write str a v m none none le h = tt
Agrees-write str a v m none (some line) le h = h
Agrees-write str a v m (some (m', e)) none le h = h
Agrees-write str a v m (some (m', e)) (some line) le h = record {
  held = h.held;
  stop = h.stop;
  before = λ b p. let other : (a == b) ≡ false = ground arith in h.before b p ∙ rw other refl;
}

ended :
    (line : List ℕ) (str : ℕ) (m : Memory)
    → Holds line str m
    → Edited line str m (write m (str + count line) 0)
ended line str m h = record {
  held = Holds-write line str (str + count line) 0 m (omega arith) h;
  stop = ground arith;
  before = λ a p. ground arith;
}

-- The loop on the keys cs, whatever line is in memory.
Edits : List ℕ → Type 0
Edits cs =
    (line : List ℕ) (str : ℕ) (m : Memory)
    → Holds line str m
    → Agrees str m (gets_loop str (count line) cs m) (typed line cs)

module _ (cs : List ℕ) (ih : Edits cs) (str : ℕ) (m : Memory) where
  rub_lem :
      (line : List ℕ)
      → Holds line str m
      → Agrees str m (gets_loop str (count line) (8 ∷ cs) m) (typed (rubbed line) cs)
  unfolding gets_loop Edits
  rub_lem [] h = ih [] str m h
  rub_lem (c ∷ line) h = Agrees-echo 8 str m _ _ (
      Agrees-write str (str + count line) 0 m _ _ (omega arith) (
        ih line str (write m (str + count line) 0) (
          Holds-write line str (str + count line) 0 m (omega arith)
            (Holds-rubbed (c ∷ line) str m h))))

  key_lem :
      (c : ℕ) (line : List ℕ)
      → Holds line str m
      → Agrees str m
          (echo c (gets_loop str (count line + 1) cs (write m (str + count line) c)))
          (typed (c ∷ line) cs)
  unfolding Edits Holds
  key_lem c line h =
      let e : count line + 1 ≡ suc (count line) = omega arith in
      let here : write m (str + count line) c (str + count line) ≡ c = ground arith in
      rw e (
        Agrees-echo c str m _ _ (
          Agrees-write str (str + count line) c m _ _ (omega arith) (
            ih (c ∷ line) str (write m (str + count line) c)
              (here, Holds-write line str (str + count line) c m (omega arith) h))))

  step_lem :
      (c : ℕ) (line : List ℕ)
      → Holds line str m
      → Agrees str m (gets_loop str (count line) (c ∷ cs) m) (typed line (c ∷ cs))
  unfolding gets_loop typed Agrees
  step_lem c line h = elim (Bool-cases (c == 10)) [
    | inl e ↦ rw (e, gets_loop) (ended line str m h)
    | inr e ↦ elim (Bool-cases (c == 8)) [
      | inl e' ↦ let p : c ≡ 8 = ground arith in rw p (rub_lem line h)
      | inr e' ↦ rw (e, e', gets_loop) (key_lem c line h)
    ]
  ]

edits : (cs : List ℕ) → Edits cs
unfolding Edits gets_loop typed Agrees
edits [] line str m h = tt
edits (c ∷ cs) line str m h = step_lem cs (edits cs) str m c line h

-- `gets` returns exactly if a newline comes. The buffer then holds the line that the keys before it make, where a
-- backspace takes back the last character and does nothing on an empty line, with a zero byte behind it. No byte
-- before the buffer is written.
pub gets-Agrees :
    (str : ℕ) (keys : List ℕ) (m : Memory) → Agrees str m (gets str keys m) (typed [] keys)
unfolding gets Edits Holds
gets-Agrees str keys m = edits keys [] str m tt
