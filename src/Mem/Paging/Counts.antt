-- ===== src/Mem/Paging/Counts.antt =====
-- How many frames the bitmap has free: kernel/src/mem/paging.c.
use ogos.Prelude.{
  ℕ, zero, suc, ◌+◌, ◌*◌, ◌/◌, ◌<◌, ◌≤◌, ◌≡◌, arith, inl, inr, Bool-cases, ◌==◌, ltb, if◌then◌else◌,
}
use ogos.Mem.Frames.{Frames}
use ogos.Mem.Frames.Bitmap.{used}

abbrev pub is_free : ℕ → ℕ
is_free u = if u == 0 then 1 else 0

-- the free ones among the first n frames of a bitmap u
unfoldable pub free_count : ℕ → (ℕ → ℕ) → ℕ
free_count zero u = 0
free_count (suc n) u = is_free (u n) + free_count n u

-- The frames that `first_frame` can find: those of the whole words of the bitmap.
abbrev pub free_frames : Frames → ℕ
free_frames fr = free_count (fr.nframes / 32 * 32) (used fr)

pub free_count-found : (n : ℕ) (u : ℕ → ℕ) → 0 < free_count n u → (g : ℕ) × (g < n) × (u g ≡ 0)
unfolding free_count
free_count-found zero u h = absurd (omega (arith, h))
free_count-found (suc n) u h = elim (Bool-cases (u n == 0)) [
  | inl free ↦ (n, omega arith, ground arith)
  | inr taken ↦ let (g, lt, e) = free_count-found n u (ground arith) in (g, omega arith, e)
]

free_count_step :
    (n p : ℕ) (u u' : ℕ → ℕ)
    → ((g : ℕ) → u' g ≡ (if p == g then 1 else u g))
    → free_count n u ≤ free_count n u' + (if ltb p n then 1 else 0)
unfolding free_count
free_count_step zero p u u' h = omega arith
free_count_step (suc n) p u u' h =
    let e = h n in let rest = free_count_step n p u u' h in ground arith

-- Taking a frame leaves at most one frame less.
pub free_count-taken :
    (n p : ℕ) (u u' : ℕ → ℕ)
    → ((g : ℕ) → u' g ≡ (if p == g then 1 else u g))
    → free_count n u ≤ free_count n u' + 1
free_count-taken n p u u' h = let step = free_count_step n p u u' h in ground arith
