-- ===== src/Mem/Frames/Alloc.antt =====
-- `alloc_frame` and `free_frame` against the frames of the bitmap.
use ogos.Prelude.{
  ℕ, ◌*◌, ◌/◌, ◌%◌, ◌^◌, ◌<◌, ◌≤◌, ◌≡◌, ◌≢◌, ◌∙◌, refl, Option, none, some, arith, ◌==◌,
  if◌then◌else◌,
}
use ogos.Prelude.Words.{mul32}
use ogos.Mem.Frames.{Frames, Page, set_frame, first_frame, alloc_frame, free_frame}
use ogos.Mem.Frames.Bitmap.{used, used-set_frame, used-clear_frame}
use ogos.Mem.Frames.Search.{Least, first_frame-Least}

-- What `alloc_frame` does to the bitmap and to a page that had no frame.
pub record Allocated (fr : Frames) (page : Page) (is_kernel is_writeable : ℕ) (fr' : Frames)
    (page' : Page) : Type 0 where
  pub was_free : used fr page'.frame ≡ 0
  pub in_range : page'.frame < fr.nframes
  pub lowest : (g : ℕ) → g < page'.frame → used fr g ≡ 1
  pub flags : page' ≡ record page {
    present = 1;
    rw = if is_writeable == 1 then 1 else 0;
    user = if is_kernel == 1 then 0 else 1;
    frame = page'.frame;
  }
  pub marked : (g : ℕ) → used fr' g ≡ (if page'.frame == g then 1 else used fr g)
  pub nframes : fr'.nframes ≡ fr.nframes

nframes-set_frame : (fr : Frames) (a : ℕ) → (set_frame fr a).nframes ≡ fr.nframes
unfolding set_frame
nframes-set_frame fr a = refl

module _ (fr : Frames) (page : Page) (is_kernel is_writeable : ℕ) (small : fr.nframes ≤ 2 ^ 20)
    (bare : page.frame ≡ 0) where
  abbrev pub Result : Type 0
  Result =
      (out : Frames × Page) × (alloc_frame fr page is_kernel is_writeable ≡ some out)
      × Allocated fr page is_kernel is_writeable out.0 out.1

  alloc_found :
      (idx : ℕ)
      → first_frame fr ≡ some idx
      → Least (used fr) 0 (fr.nframes / 32 * 32) (some idx)
      → Result
  unfolding alloc_frame
  alloc_found idx found (lo, lt, free, below) =
      let whole : idx % 2 ^ 20 ≡ idx = omega arith in
      let addr : idx * 0x1000 % 2 ^ 32 / 0x1000 ≡ idx = omega arith in
      let low : (g : ℕ) → g < idx % 2 ^ 20 → used fr g ≡ 1 =
        λ g p. below g (omega arith) (omega arith) in
      (
        (
          set_frame fr (mul32 idx 0x1000),
          record page {
            present = 1;
            rw = if is_writeable == 1 then 1 else 0;
            user = if is_kernel == 1 then 0 else 1;
            frame = idx % 2 ^ 20;
          },
        ),
        rw (bare, found),
        record {
          was_free = rw whole free;
          in_range = omega arith;
          lowest = low;
          flags = refl;
          marked = λ g. rw whole (used-set_frame fr (mul32 idx 0x1000) g ∙ rw addr);
          nframes = nframes-set_frame fr (mul32 idx 0x1000);
        },
      )

  alloc_outcome :
      (o : Option ℕ)
      → first_frame fr ≡ o
      → Least (used fr) 0 (fr.nframes / 32 * 32) o
      → (free : ℕ) → free < fr.nframes / 32 * 32
      → used fr free ≡ 0
      → Result
  alloc_outcome none found all free lt u = absurd (omega (arith, all free (omega arith) lt))
  alloc_outcome (some idx) found least free lt u = alloc_found idx found least

  -- A page without a frame gets the lowest free one, if any frame that the bitmap covers by whole
  -- words is free: that frame was free, it is marked used and no other frame changes. The page becomes
  -- present, with the flags that the caller asks for.
  pub alloc_frame_lem : (free : ℕ) → free < fr.nframes / 32 * 32 → used fr free ≡ 0 → Result
  alloc_frame_lem = alloc_outcome (first_frame fr) refl (first_frame-Least fr)

-- `free_frame` on a page with a frame leaves the frame marked used, and marks free the frame
-- whose number is that of the page's frame divided by 4096: `clear_frame` takes an address and
-- `free_frame` hands it a frame number.
pub free_frame_leaks :
    (fr : Frames) (page : Page)
    → page.frame ≢ 0
    → used fr page.frame ≡ 1
    → (used (free_frame fr page).0 page.frame ≡ 1)
      × (used (free_frame fr page).0 (page.frame / 0x1000) ≡ 0)
      × ((free_frame fr page).1.frame ≡ 0)
unfolding free_frame
free_frame_leaks fr page h u = ground (
  arith,
  used-clear_frame fr page.frame page.frame,
  used-clear_frame fr page.frame (page.frame / 0x1000),
)
